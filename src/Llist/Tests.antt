-- ===== src/Llist/Tests.antt =====
-- includes/awa/ds/llist.h: a list of one element, and the theorem at it.
use os_learn.Base.{◌≡◌, refl, [], ◌∷◌, arith, if◌then◌else◌, ◌==◌}
use os_learn.Llist.{Links, llist_append, llist_delete, llist_init_head}
use os_learn.Llist.Ring.{Walk, append-Walk, delete_stuck}

-- The head at 100 and one element at 200.
abbrev links : Links
links = record {
  prev = λ p. if p == 100 then 200 else 100;
  next = λ p. if p == 100 then 200 else 100;
}

append-Walk_example : Walk (llist_append 100 300 links) 100 100 (300 ∷ 200 ∷ [])
unfolding os_learn.Llist.Ring.Fresh Walk
append-Walk_example =
    append-Walk 100 300 links (200 ∷ []) (omega arith) (omega arith, tt) (refl, omega arith, refl)

-- Deleting the first of two elements leaves the `prev` of the second at itself.
deleted : (llist_delete 300 (llist_append 100 300 links)).prev 200 ≡ 200
unfolding llist_delete llist_append
deleted = refl

delete_stuck_example :
    ((llist_delete 300 (
          llist_delete 200
            (llist_append 100 200 (llist_append 100 300 (llist_init_head 100 links))))).next
        100
      ≡ 300)
    × ((llist_delete 300 (
            llist_delete 200
              (llist_append 100 200 (llist_append 100 300 (llist_init_head 100 links))))).next
          300
        ≡ 300)
delete_stuck_example = delete_stuck 100 200 300 links (omega arith) (omega arith) (omega arith)
