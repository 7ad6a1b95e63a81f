-- ===== src/Llist/Ring.antt =====
-- includes/awa/ds/llist.h: the elements that a walk along `next` meets.
use os_learn.Base.{ℕ, ◌≡◌, ◌≢◌, refl, sym, ◌∙◌, List, [], ◌∷◌, arith, ne→==, eq→==}
use os_learn.Llist.{Links, llist_add, llist_append, llist_delete, llist_init_head}

-- Along `next` from the header at `p`, the walk meets the elements and comes to the header `head`.
unfoldable pub Walk : Links → ℕ → ℕ → List ℕ → Type 0
Walk m head p [] = m.next p ≡ head
Walk m head p (x ∷ xs) = (m.next p ≡ x) × (x ≢ head) × Walk m head x xs

-- The header at `elem` is none of the elements.
unfoldable pub Fresh : ℕ → List ℕ → Type 0
Fresh elem [] = Unit {0}
Fresh elem (x ∷ xs) = (x ≢ elem) × Fresh elem xs

next-add :
    (elem prev next : ℕ) (m : Links) (p : ℕ)
    → p ≢ prev
    → p ≢ elem
    → (llist_add elem prev next m).next p ≡ m.next p
unfolding llist_add
next-add elem prev next m p a b =
    rw (ne→== prev p (omega (arith, a)), ne→== elem p (omega (arith, b)))

Walk-add :
    (elem head next p : ℕ) (m : Links) (xs : List ℕ)
    → p ≢ head
    → p ≢ elem
    → Fresh elem xs
    → Walk m head p xs
    → Walk (llist_add elem head next m) head p xs
unfolding Walk Fresh
Walk-add elem head next p m [] a b f w = next-add elem head next m p a b ∙ w
Walk-add elem head next p m (x ∷ xs) a b (n, f) (e, h, w) =
    (next-add elem head next m p a b ∙ e, h, Walk-add elem head next x m xs h n f w)

-- llist_append puts a new element before all others: the walk from the head meets it first, and
-- then what it met before.
pub append-Walk :
    (head elem : ℕ) (m : Links) (xs : List ℕ)
    → elem ≢ head
    → Fresh elem xs
    → Walk m head head xs
    → Walk (llist_append head elem m) head head (elem ∷ xs)
unfolding Walk llist_append Fresh
append-Walk head elem m [] ne f w = (
  rw (eq→== head head refl),
  ne,
  rw (ne→== head elem (omega (arith, ne)), eq→== elem elem refl) w,
)
append-Walk head elem m (x ∷ xs) ne (n, f) (e, h, w) = (
  rw (eq→== head head refl),
  ne,
  rw (ne→== head elem (omega (arith, ne)), eq→== elem elem refl)
      (e, h, Walk-add elem head (m.next head) x m xs h n f w),
)

-- llist_delete of the first and then of the second of two elements, which llist_append has put into an
-- empty list: the second stays in the list and is its own next, so that a walk from the head does not
-- end.
pub delete_stuck :
    (head a b : ℕ) (m : Links)
    → a ≢ head
    → b ≢ head
    → a ≢ b
    → ((llist_delete b (
            llist_delete a
              (llist_append head a (llist_append head b (llist_init_head head m))))).next
          head
        ≡ b)
      × ((llist_delete b (
              llist_delete a
                (llist_append head a (llist_append head b (llist_init_head head m))))).next
            b
          ≡ b)
unfolding llist_delete llist_append llist_add llist_init_head
delete_stuck head a b m ah bh ab =
    let e1 = ne→== a head ah in
    let e2 = ne→== b head bh in
    let e3 = ne→== a b ab in
    let e4 = ne→== head a (λ e. ah (sym e)) in
    let e5 = ne→== head b (λ e. bh (sym e)) in
    let e6 = ne→== b a (λ e. ab (sym e)) in
    let r1 = eq→== a a refl in
    let r2 = eq→== b b refl in
    let r3 = eq→== head head refl in
    (simp (r3, e4, e5, e1, e2, e3, e6, r1, r2), simp (r3, e4, e5, e2, e3, e6, r1, r2))
