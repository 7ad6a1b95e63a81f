-- ===== src/Cpu.antt =====
-- hal/cpu.c: what the processor says of itself. The instruction is the parameter `get_cpuid`, which
-- gives the four registers for a leaf, or `none` where the leaf is not supported and the registers
-- stay as they were; `get_cpuid_max` is the largest leaf. A buffer is a memory of bytes from 0 on.
pub mod Brand
mod Tests
use os_learn.Base.{
  ℕ, zero, suc, ◌+◌, ◌*◌, ◌/◌, ◌%◌, ◌^◌, Bool, Option, some, none, bit_and, leb, not, ◌==◌,
  if◌then◌else◌, update,
}
use os_learn.Klibc.{Bytes}

pub record Cpuid : Type 0 where
  pub eax : ℕ
  pub ebx : ℕ
  pub ecx : ℕ
  pub edx : ℕ

abbrev pub no_registers : Cpuid
no_registers = record { eax = 0; ebx = 0; ecx = 0; edx = 0 }

-- `*(uint32_t*)a = w`
abbrev pub store_word : ℕ → ℕ → Bytes → Bytes
store_word a w m =
    update
      (update (update (update m a (w % 0x100)) (a + 1) (w / 0x100 % 0x100)) (a + 2)
        (w / 0x1_0000 % 0x100))
      (a + 3) (w / 0x100_0000 % 0x100)

abbrev pub brand_leaf : ℕ
brand_leaf = 0x8000_0000

-- The registers after __get_cpuid.
abbrev pub registers_after : Option Cpuid → Cpuid → Cpuid
registers_after (some r) old = r
registers_after none old = old

module _ (get_cpuid : ℕ → Option Cpuid) (get_cpuid_max : ℕ → ℕ) where
  pub cpu_get_model : Bytes → Bytes
  cpu_get_model out =
      let r = registers_after (get_cpuid 0) no_registers in
      update (store_word 8 r.ecx (store_word 4 r.edx (store_word 0 r.ebx out))) 12 0

  pub cpu_brand_string_supported : Bool
  cpu_brand_string_supported = leb 0x8000_0004 (get_cpuid_max brand_leaf)

  -- The loop of cpu_get_brand, of which `n` rounds are left.
  pub brand_words : ℕ → ℕ → ℕ → Cpuid → Bytes → Bytes
  brand_words zero i j old out = out
  brand_words (suc n) i j old out =
      let r = registers_after (get_cpuid (brand_leaf + i)) old in
      brand_words n (i + 1) (j + 4) r (
        store_word ((j + 3) * 4) r.edx (
          store_word ((j + 2) * 4) r.ecx
            (store_word ((j + 1) * 4) r.ebx (store_word (j * 4) r.eax out))))

  pub cpu_get_brand : Bytes → Bytes
  cpu_get_brand out =
      let out1 = if cpu_brand_string_supported then out else update (update out 0 63) 1 0 in
      update (brand_words 3 2 0 no_registers out1) 48 0

  pub cpu_has_apic : ℕ
  cpu_has_apic = bit_and (registers_after (get_cpuid 1) no_registers).edx 0x100
