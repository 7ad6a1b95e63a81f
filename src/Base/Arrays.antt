-- ===== src/Base/Arrays.antt =====
-- C arrays. A static array or a region of memory is a function from its index; a text or a list of
-- values passed in is a list.
use Prim.Native.Nat.{ℕ, zero, suc, ◌+◌}
use mathlib.Core.Path.{◌≡◌}
use mathlib.Core.List.{List, [], ◌∷◌, ◌++◌}
use mathlib.Core.Bool.{◌&&◌}
use native.Mathlib.Omega.{arith}
use os_learn.Base.Compare.{◌==◌, ltb, leb, if◌then◌else◌}

-- `a[i] = v`
abbrev pub update {ℓ} : {A : Type ℓ} → (ℕ → A) → ℕ → A → ℕ → A
update f i v j = if i == j then v else f j

-- `for (k = from; k < from + n; k++) a[k] = v;`
unfoldable pub fill {ℓ} : {A : Type ℓ} → ℕ → ℕ → A → (ℕ → A) → ℕ → A
fill zero from v f = f
fill (suc n) from v f = fill n (from + 1) v (update f from v)

-- The loop writes `n` cells from `from` on, and no other.
pub fill_lem {ℓ} :
    {A : Type ℓ} (n from : ℕ) (v : A) (f : ℕ → A) (j : ℕ)
    → fill n from v f j ≡ (if leb from j && ltb j (from + n) then v else f j)
unfolding fill
fill_lem zero from v f j = ground arith
fill_lem (suc n) from v f j = ground (arith, fill_lem n (from + 1) v (update f from v) j)

module _ {ℓ} {A : Type ℓ} where
  abbrev pub length : List A → ℕ
  length [] = 0
  length (x ∷ xs) = suc (length xs)

  pub length-append : (xs ys : List A) → length (xs ++ ys) ≡ length xs + length ys
  length-append [] ys = omega arith
  length-append (x ∷ xs) ys = omega (arith, length-append xs ys)
