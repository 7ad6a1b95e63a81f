-- ===== src/Apic.antt =====
-- hal/apic.c: the set-up of the local interrupt controller. Its registers are at their offsets from
-- APIC_BASE_VADDR. `cpu_has_apic` is only asserted and the identity is only printed, so both are left
-- out.
pub mod Vectors
mod Tests
use os_learn.Base.{
  ℕ, ◌+◌, ◌*◌, ◌^◌, Bool, true, false, bit_and, bit_or, ◌==◌, if◌then◌else◌, update,
}
use os_learn.Interrupts.{apic_error_iv, apic_spiv_iv}

-- The processor's interrupt flag, the mask registers of the old controllers by their ports, the low
-- words of the model specific registers, and the registers of the controller.
pub record Controller : Type 0 where
  pub interrupts : Bool
  pub port : ℕ → ℕ
  pub msr : ℕ → ℕ
  pub regs : ℕ → ℕ

abbrev pub ia32_apic_base_msr : ℕ
ia32_apic_base_msr = 0x1b

abbrev pub ia32_apic_enable : ℕ
ia32_apic_enable = 0x800

abbrev pub apic_tpr : ℕ
apic_tpr = 0x80

abbrev pub apic_spivr : ℕ
apic_spivr = 0xf0

abbrev pub apic_lvt_lint0 : ℕ
apic_lvt_lint0 = 0x350

abbrev pub apic_lvt_lint1 : ℕ
apic_lvt_lint1 = 0x360

abbrev pub apic_lvt_error : ℕ
apic_lvt_error = 0x370

abbrev pub apic_spiv_apic_enable : ℕ
apic_spiv_apic_enable = 0x100

abbrev pub lvt_delivery_fixed : ℕ
lvt_delivery_fixed = 0

abbrev pub lvt_delivery_nmi : ℕ
lvt_delivery_nmi = 0x400

abbrev pub lvt_trigger_edge : ℕ
lvt_trigger_edge = 0

abbrev pub lvt_masked : ℕ
lvt_masked = 0x1_0000

abbrev pub apic_lint0_iv : ℕ
apic_lint0_iv = 201

abbrev pub apic_priority : ℕ → ℕ → ℕ
apic_priority cls subcls = bit_or (cls * 2 ^ 4) subcls

abbrev pub write_reg : ℕ → ℕ → Controller → Controller
write_reg reg val c = record c { regs = update c.regs reg val }

abbrev pub cpu_disable_interrupt : Controller → Controller
cpu_disable_interrupt c = record c { interrupts = false }

abbrev pub pic_disable : Controller → Controller
pic_disable c = record c { port = update (update c.port 0xa1 0xff) 0x21 0xff }

-- The instructions `rdmsr`, `orl` and `wrmsr` of apic_init.
abbrev pub enable_hardware : Controller → Controller
enable_hardware c = record c {
  msr = update c.msr ia32_apic_base_msr (bit_or (c.msr ia32_apic_base_msr) ia32_apic_enable);
}

pub apic_setup_lvts : Controller → Controller
apic_setup_lvts c =
    let c1 = write_reg apic_lvt_lint0 (bit_or lvt_delivery_fixed apic_lint0_iv) c in
    let c2 =
      write_reg apic_lvt_lint1 (bit_or (bit_or lvt_delivery_nmi lvt_masked) lvt_trigger_edge) c1 in
    write_reg apic_lvt_error (bit_or lvt_delivery_fixed apic_error_iv) c2

pub apic_init : Controller → Controller
unfolding apic_setup_lvts
apic_init c =
    let c1 = apic_setup_lvts (enable_hardware (pic_disable (cpu_disable_interrupt c))) in
    let c2 = write_reg apic_tpr (apic_priority 2 0) c1 in
    let spiv = c2.regs apic_spivr in
    write_reg apic_spivr
      (bit_or (bit_or (bit_and spiv 0xffff_ff00) apic_spiv_apic_enable) apic_spiv_iv) c2
