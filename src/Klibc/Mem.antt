-- ===== src/Klibc/Mem.antt =====
-- libs/klibc/string/mem.c: what the copies leave in memory.
use os_learn.Base.{
  ℕ, zero, suc, ◌+◌, ◌-◌, ◌≤◌, ◌<◌, ◌≡◌, ◌⊎◌, ◌↔◌, inl, inr, ◌&&◌, arith, ltb, leb, if◌then◌else◌,
  update, for_range, Bool-cases, refl, sym,
}
use native.Mathlib.Decide.{ℕ_discrete}
use os_learn.Klibc.{Bytes, copy_down, memcpy, memmove, memcmp, memcmp_from}

copy_up_from :
    (dest src num from : ℕ) (m : Bytes) (j : ℕ)
    → (dest ≤ src) ⊎ (src + from + num ≤ dest + from)
    → for_range num from (λ i m. update m (dest + i) (m (src + i))) m j
      ≡ (if leb (dest + from) j && ltb j (dest + from + num) then m (src + (j - dest)) else m j)
unfolding for_range
copy_up_from dest src zero from m j apart = ground arith
copy_up_from dest src (suc n) from m j (inl low) = ground (
  arith,
  copy_up_from dest src n (from + 1) (update m (dest + from) (m (src + from))) j (inl low),
)
copy_up_from dest src (suc n) from m j (inr over) = ground (
  arith,
  copy_up_from dest src n (from + 1) (update m (dest + from) (m (src + from))) j
      (inr (omega arith)),
)

copy_down_lem :
    (dest src num : ℕ) (m : Bytes) (j : ℕ)
    → src ≤ dest
    → copy_down dest src num m j
      ≡ (if leb dest j && ltb j (dest + num) then m (src + (j - dest)) else m j)
unfolding copy_down
copy_down_lem dest src zero m j high = ground arith
copy_down_lem dest src (suc i) m j high =
    ground (arith, copy_down_lem dest src i (update m (dest + i) (m (src + i))) j high)

-- memcpy, for a source that does not reach into the destination from below: the bytes of the source
-- stand at the destination, and every other byte is as it was.
pub memcpy_lem :
    (dest src num : ℕ) (m : Bytes) (j : ℕ)
    → (dest ≤ src) ⊎ (src + num ≤ dest)
    → memcpy dest src num m j
      ≡ (if leb dest j && ltb j (dest + num) then m (src + (j - dest)) else m j)
unfolding memcpy
memcpy_lem dest src num m j (inl low) = ground (arith, copy_up_from dest src num 0 m j (inl low))
memcpy_lem dest src num m j (inr far) =
    ground (arith, copy_up_from dest src num 0 m j (inr (omega arith)))

-- memmove, for any two regions, overlapping or not: the old bytes of the source stand at the
-- destination, and every other byte is as it was.
pub memmove_lem :
    (dest src num : ℕ) (m : Bytes) (j : ℕ)
    → memmove dest src num m j
      ≡ (if leb dest j && ltb j (dest + num) then m (src + (j - dest)) else m j)
unfolding memmove
memmove_lem dest src num m j = elim (Bool-cases (ltb dest src)) [
  | inl below ↦ rw below (ground (arith, copy_up_from dest src num 0 m j (inl (ground arith))))
  | inr above ↦ rw above (copy_down_lem dest src num m j (ground arith))
]

memcmp_from-equal :
    (num i ptr1 ptr2 : ℕ) (m : Bytes)
    → ((k : ℕ) → m k < 256)
    → memcmp_from num i ptr1 ptr2 m ≡ 0
    → (k : ℕ) → i ≤ k
    → k < i + num
    → m (ptr1 + k) ≡ m (ptr2 + k)
unfolding memcmp_from
memcmp_from-equal zero i ptr1 ptr2 m small e k l h = absurd (omega arith)
memcmp_from-equal (suc n) i ptr1 ptr2 m small e k l h = elim (ℕ_discrete i k) [
  | yes q ↦ rw (sym q) here
  | no ne ↦ memcmp_from-equal n (i + 1) ptr1 ptr2 m small rest k (omega (arith, ne)) (omega arith)
]
  where
    here : m (ptr1 + i) ≡ m (ptr2 + i)
    here = ground (arith, small (ptr1 + i), small (ptr2 + i))

    rest : memcmp_from n (i + 1) ptr1 ptr2 m ≡ 0
    rest = ground (arith, small (ptr1 + i), small (ptr2 + i))

equal-memcmp_from :
    (num i ptr1 ptr2 : ℕ) (m : Bytes)
    → ((k : ℕ) → m k < 256)
    → ((k : ℕ) → i ≤ k → k < i + num → m (ptr1 + k) ≡ m (ptr2 + k))
    → memcmp_from num i ptr1 ptr2 m ≡ 0
unfolding memcmp_from
equal-memcmp_from zero i ptr1 ptr2 m small same = refl
equal-memcmp_from (suc n) i ptr1 ptr2 m small same =
    let here = same i (omega arith) (omega arith) in
    let rest =
      equal-memcmp_from n (i + 1) ptr1 ptr2 m small (λ k l h. same k (omega arith) (omega arith)) in
    ground (arith, small (ptr1 + i), small (ptr2 + i))

-- memcmp, on a memory of bytes, returns 0 exactly when the two regions hold the same bytes.
pub memcmp-equal :
    (ptr1 ptr2 num : ℕ) (m : Bytes)
    → ((k : ℕ) → m k < 256)
    → (memcmp ptr1 ptr2 num m ≡ 0) ↔ ((k : ℕ) → k < num → m (ptr1 + k) ≡ m (ptr2 + k))
unfolding memcmp
memcmp-equal ptr1 ptr2 num m small = (
  λ e k h. memcmp_from-equal num 0 ptr1 ptr2 m small e k (omega arith) (omega arith),
  λ same. equal-memcmp_from num 0 ptr1 ptr2 m small (λ k l h. same k (omega arith)),
)
