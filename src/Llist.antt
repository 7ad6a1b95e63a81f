-- ===== src/Llist.antt =====
-- includes/awa/ds/llist.h: the doubly linked cyclic list. A header is at an address, and the memory
-- is the two functions from an address to the `prev` and the `next` of the header there.
pub mod Ring
mod Tests
use os_learn.Base.{ℕ, ◌+◌, ◌==◌, if◌then◌else◌, update}

pub record Links : Type 0 where
  pub prev : ℕ → ℕ
  pub next : ℕ → ℕ

abbrev pub set_prev : ℕ → ℕ → Links → Links
set_prev p v m = record m { prev = update m.prev p v }

abbrev pub set_next : ℕ → ℕ → Links → Links
set_next p v m = record m { next = update m.next p v }

pub llist_add : ℕ → ℕ → ℕ → Links → Links
llist_add elem prev next m =
    set_next prev elem (set_prev elem prev (set_next elem next (set_prev next elem m)))

pub llist_init_head : ℕ → Links → Links
llist_init_head head m = set_prev head head (set_next head head m)

pub llist_append : ℕ → ℕ → Links → Links
unfolding llist_add
llist_append head elem m = llist_add elem head (m.next head) m

pub llist_prepend : ℕ → ℕ → Links → Links
unfolding llist_add
llist_prepend head elem m = llist_add elem (m.prev head) head m

pub llist_delete : ℕ → Links → Links
llist_delete elem m =
    let m1 = set_next (m.prev elem) (m.next elem) m in
    let m2 = set_prev (m1.next elem) (m1.next elem) m1 in set_next elem elem (set_prev elem elem m2)
