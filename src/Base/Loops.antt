-- ===== src/Base/Loops.antt =====
-- The two loop forms of the sources: a counted loop, and a loop with a test on fuel.
use Prim.Native.Nat.{ℕ, zero, suc, ◌+◌, ◌<◌, ◌≤◌}
use native.Mathlib.Decide.{ℕ_discrete}
use mathlib.Core.Path.{◌≡◌, refl}
use mathlib.Core.Bool.{Bool, true, false}
use native.Mathlib.Omega.{arith}
use os_learn.Base.Compare.{Bool-cases}
use mathlib.Core.Logic.{inl, inr}

-- `for (k = from; k < from + n; k++) s = body k s;`
unfoldable pub for_range {ℓ} : {S : Type ℓ} → ℕ → ℕ → (ℕ → S → S) → S → S
for_range zero from body s = s
for_range (suc n) from body s = for_range n (from + 1) body (body from s)

-- `while (test s) s = body s;`, for at most the given number of rounds.
unfoldable pub loop {ℓ} : {S : Type ℓ} → ℕ → (S → Bool) → (S → S) → S → S
loop zero test body s = s
loop (suc fuel) test body s = elim (test s) [ true ↦ loop fuel test body (body s) | false ↦ s ]

module _ {ℓ κ} {S : Type ℓ} (Keeps : S → Type κ) (test : S → Bool) (body : S → S) where
  -- Total correctness: with a measure below the fuel the loop ends by its own test, and what each
  -- round keeps holds at the end.
  pub loop_rule :
      (measure : S → ℕ)
      → ((s : S) → Keeps s → test s ≡ true → Keeps (body s) × (measure (body s) < measure s))
      → (fuel : ℕ) (s : S) → measure s < fuel
      → Keeps s
      → Keeps (loop fuel test body s) × (test (loop fuel test body s) ≡ false)
  unfolding loop
  loop_rule measure keep zero s m h = absurd (omega arith)
  loop_rule measure keep (suc fuel) s m h = elim (Bool-cases (test s)) [
    | inl going ↦
        (let (h', m') = keep s h going in
          rw (going, loop) (loop_rule measure keep fuel (body s) (omega arith) h'))
    | inr done ↦ rw (done, loop) (h, done)
  ]

module _ {ℓ} {S : Type ℓ} (test : S → Bool) (body : S → S) where
  pub loop_step :
      (fuel : ℕ) (s : S)
      → test s ≡ true
      → loop (suc fuel) test body s ≡ loop fuel test body (body s)
  unfolding loop
  loop_step fuel s going = rw (going, loop)

  pub loop_done : (fuel : ℕ) (s : S) → test s ≡ false → loop fuel test body s ≡ s
  unfolding loop
  loop_done zero s done = refl
  loop_done (suc fuel) s done = rw (done, loop)

-- A loop that counts up stops at the first number that fails its test.
pub loop-count :
    (test : ℕ → Bool) (n fuel i : ℕ)
    → i ≤ n
    → n < i + fuel
    → ((k : ℕ) → i ≤ k → k < n → test k ≡ true)
    → test n ≡ false
    → loop fuel test (λ k. k + 1) i ≡ n
unfolding loop
loop-count test n zero i le lt going done = absurd (omega arith)
loop-count test n (suc fuel) i le lt going done = elim (ℕ_discrete i n) [
  | yes e ↦ rw (e, done, loop) e
  | no ne ↦
      (rw (going i (omega arith) (omega (arith, ne)), loop)
        (loop-count test n fuel (i + 1) (omega (arith, ne)) (omega arith)
          (λ k l u. going k (omega arith) u) done))
]
