-- ===== src/Cpu/Tests.antt =====
-- hal/cpu.c: a processor with a text and one without, and the theorems at them.
use os_learn.Base.{ℕ, ◌+◌, ◌*◌, ◌/◌, ◌%◌, ◌^◌, ◌<◌, ◌≡◌, refl, some, none}
use os_learn.Cpu.{Cpuid, cpu_get_brand, cpu_get_model, cpu_has_apic}
use os_learn.Cpu.Brand.{register, cpu_get_brand_lem, cpu_get_brand-unsupported}

-- "ABCD" in each of the four registers, of every leaf.
abbrev letters : Cpuid
letters = record { eax = 0x4443_4241; ebx = 0x4443_4241; ecx = 0x4443_4241; edx = 0x4443_4241 }

cpu_get_brand_lem_example :
    ((l k b : ℕ)
      → l < 3
      → k < 4
      → b < 4
      → cpu_get_brand (λ a. some letters) (λ a. 0x8000_0008) (λ a. 7) ((4 * l + k) * 4 + b)
        ≡ register letters k / 0x100 ^ b % 0x100)
    × (cpu_get_brand (λ a. some letters) (λ a. 0x8000_0008) (λ a. 7) 48 ≡ 0)
cpu_get_brand_lem_example =
    cpu_get_brand_lem (λ a. some letters) (λ a. 0x8000_0008) (λ l. letters) (λ a. 7) (λ l h. refl)

cpu_get_brand-unsupported_run : cpu_get_brand (λ a. none) (λ a. 0) (λ a. 7) 0 ≡ 0
cpu_get_brand-unsupported_run = cpu_get_brand-unsupported (λ a. none) (λ a. 0) (λ a. 7) refl

model_ends : cpu_get_model (λ a. some letters) (λ a. 0) (λ a. 7) 12 ≡ 0
unfolding cpu_get_model
model_ends = refl

no_apic : cpu_has_apic (λ a. some letters) (λ a. 0) ≡ 0
unfolding cpu_has_apic
no_apic = refl
