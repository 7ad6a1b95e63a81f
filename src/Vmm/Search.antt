-- ===== src/Vmm/Search.antt =====
-- kernel/mm/vmm.c: the search of vmm_map_page comes to its end.
use os_learn.Base.{
  ℕ, zero, suc, ◌+◌, ◌*◌, ◌^◌, ◌≤◌, ◌<◌, ◌≡◌, ◌&&◌, ◌||◌, not, true, false, inl, inr, refl, arith,
  Bool, Bool-cases, ltb, ==→eq, ◌==◌, if◌then◌else◌, Option, some, none,
}
use os_learn.Paging.{
  pg_max_entries, pg_present, l1_index, l2_index, l1_index_lem, l2_index_lem, v_addr, pg_offset,
  has_flags, l2_vaddr,
}
use os_learn.Mmu.{
  Machine, Run, ok, fault, Cmd, pure, then_run, walk, load, ◌>>=◌, store, load_at, load_fault,
  store_at, clear_at, clear_page, alloc, free,
}
use os_learn.Vmm.{
  entry_vaddr, new_table, release_old, enter_page, vmm_map_internal, Place, entered, stopped,
  Cursor, next_table, enter_slot, find_slot, scan_fuel, vmm_map_page,
}

-- A run that returns a value or takes a page fault.
pub data Ends {A : Type 0} : Run A → Type 0 where
  returned : (a : A) (m : Machine) → Ends (ok a m)
  faulted : Ends fault

-- A run that ends with a value for which `P` holds, or takes a page fault.
data EndsIn {A : Type 0} (P : A → Type 0) : Run A → Type 0 where
  returned_in : (a : A) (m : Machine) → P a → EndsIn P (ok a m)
  faulted_in : EndsIn P fault

module _ {A B : Type 0} where
  then-Ends :
      {r : Run A} {k : A → Cmd B}
      → Ends r
      → ((a : A) (m : Machine) → Ends (k a m))
      → Ends (then_run r k)
  then-Ends (returned a m) later = later a m
  then-Ends faulted later = faulted

  then-EndsIn :
      {P : A → Type 0} {r : Run A} {k : A → Cmd B}
      → EndsIn P r
      → ((a : A) (m : Machine) → P a → Ends (k a m))
      → Ends (then_run r k)
  then-EndsIn (returned_in a m p) later = later a m p
  then-EndsIn faulted_in later = faulted

  followed-EndsIn :
      {P : B → Type 0} {r : Run A} {k : A → Cmd B}
      → Ends r
      → ((a : A) (m : Machine) → EndsIn P (k a m))
      → EndsIn P (then_run r k)
  followed-EndsIn (returned a m) later = later a m
  followed-EndsIn faulted later = faulted_in

module _ {A : Type 0} where
  if-Ends :
      {c d : Cmd A} (b : Bool)
      → ((m : Machine) → Ends (c m))
      → ((m : Machine) → Ends (d m))
      → (m : Machine) → Ends ((if b then c else d) m)
  if-Ends true a b m = a m
  if-Ends false a b m = b m

choose-Ends :
    {A : Type 0} {c d : Cmd A} (b : Bool)
    → ((m : Machine) → Ends (c m))
    → ((m : Machine) → Ends (d m))
    → (m : Machine) → Ends ((elim b as (λ _. Cmd A) [ true ↦ c | false ↦ d ]) m)
choose-Ends true a b m = a m
choose-Ends false a b m = b m

load-Ends : (va : ℕ) (m : Machine) → Ends (load va m)
load-Ends va m = by_walk (walk m va) refl
  where
    by_walk : (w : Option ℕ) → walk m va ≡ w → Ends (load va m)
    by_walk none e = rw (load_fault m va e) faulted
    by_walk (some f) e = rw (load_at m va e) (returned _ _)

store-Ends : (va w : ℕ) (m : Machine) → Ends (store va w m)
unfolding store
store-Ends va w m = by_walk (walk m va) refl
  where
    by_walk : (f : Option ℕ) → walk m va ≡ f → Ends (store va w m)
    by_walk none e = rw (e, store) faulted
    by_walk (some f) e = rw (store_at m va w e) (returned _ _)

clear_page-Ends : (va : ℕ) (m : Machine) → Ends (clear_page va m)
unfolding clear_page
clear_page-Ends va m = by_walk (walk m va) refl
  where
    by_walk : (f : Option ℕ) → walk m va ≡ f → Ends (clear_page va m)
    by_walk none e = rw (e, clear_page) faulted
    by_walk (some f) e = rw (clear_at m va e) (returned _ _)

new_table-Ends : (l1_inx attr : ℕ) (m : Machine) → Ends (new_table l1_inx attr m)
unfolding new_table alloc
new_table-Ends l1_inx attr m =
    if-Ends (_ == 0) (λ n. returned _ _)
      (λ n.
        then-Ends (store-Ends _ _ n)
          (λ u n1. then-Ends (clear_page-Ends _ n1) (λ v n2. returned _ _)))
      _

enter_page-Ends : (slot pa attr : ℕ) (m : Machine) → Ends (enter_page slot pa attr false m)
unfolding enter_page release_old free
enter_page-Ends slot pa attr m = then-Ends (load-Ends slot m) (λ l2pte.
    if-Ends (not (l2pte == 0) && true) (λ n. returned _ _)
      (λ n.
        then-Ends
          (if-Ends (l2pte == 0) (λ k. returned _ _)
            (if-Ends (has_flags l2pte pg_present) (λ k. returned _ _) (λ k. returned _ _)) n)
          (λ u n1. then-Ends (store-Ends _ _ n1) (λ v n2. returned _ _))))

map_internal-Ends :
    (l1_inx l2_inx pa attr : ℕ) (m : Machine)
    → Ends (vmm_map_internal l1_inx l2_inx pa attr false m)
unfolding vmm_map_internal
map_internal-Ends l1_inx l2_inx pa attr m = then-Ends (load-Ends _ m) (λ l1pte n.
    then-Ends (if-Ends (l1pte == 0) (new_table-Ends l1_inx attr) (λ k. returned _ _) n)
      (λ ready. if-Ends ready (enter_page-Ends _ pa attr) (λ k. returned _ _)))

-- One position on: the step to the next table does not move, and the round then moves by one.
data At (n : ℕ) : Cursor → Type 0 where
  at : (d : Cursor) → d.l1 * 1024 + d.l2 ≡ n → d.l2 < 1024 → At n d

next_table-EndsIn :
    (c : Cursor) (m : Machine) → c.l2 ≤ 1024 → EndsIn (At (c.l1 * 1024 + c.l2)) (next_table c m)
unfolding next_table
next_table-EndsIn c m le = elim (Bool-cases (c.l2 == 1024)) [
  | inl full ↦
      rw full
        (followed-EndsIn (load-Ends _ m) (λ e n. returned_in _ _ (at _ (next full) (omega arith))))
  | inr room ↦ rw room (returned_in _ _ (at c refl (ground (arith, room, le))))
]
  where
    next : c.l2 == 1024 ≡ true → (c.l1 + 1) * 1024 + 0 ≡ c.l1 * 1024 + c.l2
    next full = omega (arith, ==→eq c.l2 1024 full)

-- Each round moves on by one position, and the last one that the loop tests is 1024 * 1024 + 1.
find_slot-Ends :
    (fuel pa attr : ℕ) (c : Cursor) (m : Machine)
    → c.l2 ≤ 1024
    → c.l1 * 1024 + c.l2 ≤ 1024 * 1024 + 1
    → 1024 * 1024 + 1 < fuel + (c.l1 * 1024 + c.l2)
    → Ends (find_slot fuel pa attr c m)
unfolding find_slot enter_slot
find_slot-Ends zero pa attr c m le last enough = absurd (omega (arith, last, enough))
find_slot-Ends (suc fuel) pa attr c m le last enough =
    elim (Bool-cases (not (c.pte == 0) && ltb c.l1 1024)) [
      | inr stop ↦ rw (stop, find_slot) (returned _ _)
      | inl more ↦
          rw (more, find_slot)
            (then-EndsIn (next_table-EndsIn c m le)
              (λ d n moved. round d n moved (inside more) (λ e k. find_slot-Ends fuel pa attr e k)))
    ]
  where
    inside : (not (c.pte == 0) && ltb c.l1 1024) ≡ true → c.l1 < 1024
    inside more = ground (arith, more)

    round :
        (d : Cursor) (n : Machine)
        → At (c.l1 * 1024 + c.l2) d
        → c.l1 < 1024
        → ((e : Cursor) (k : Machine)
            → e.l2 ≤ 1024
            → e.l1 * 1024 + e.l2 ≤ 1024 * 1024 + 1
            → 1024 * 1024 + 1 < fuel + (e.l1 * 1024 + e.l2)
            → Ends (find_slot fuel pa attr e k))
        → Ends (
            then_run (load (entry_vaddr (l2_vaddr d.l1) d.l2) n) (λ slot.
              elim (slot == 0) as (λ _. Cmd Place) [
                | true ↦ enter_slot pa attr d
                | false ↦ find_slot fuel pa attr (record d { l2 = d.l2 + 1 })
              ]))
    round d n (at _ e lt) low later = then-Ends (load-Ends _ n) (λ slot.
        choose-Ends (slot == 0) (λ k. then-Ends (store-Ends _ _ k) (λ u k1. returned _ _))
          (λ k.
            later (record d { l2 = d.l2 + 1 }) k (omega (arith, lt)) (omega (arith, e, low, le))
              (omega (arith, e, enough))))

-- vmm_map_page of a 32-bit address, on any machine: with the rounds that the search is given it returns, or takes a page
-- fault; the rounds are enough for the search through all the tables.
pub vmm_map_page-Ends :
    (va pa tattr : ℕ) (m : Machine) → va < 2 ^ 32 → Ends (vmm_map_page va pa tattr m)
unfolding vmm_map_page scan_fuel
vmm_map_page-Ends va pa tattr m h =
    if-Ends ((pa == 0) || (va == 0)) (λ m. returned _ _)
      (λ m. then-Ends (load-Ends _ m) (λ l1pte n.
        then-Ends
          (find_slot-Ends scan_fuel pa tattr
            (record { l1 = l1_index va; l2 = l2_index va; pte = l1pte }) n (omega (arith, l2_lt))
            (omega (arith, l1_lt, l2_lt)) (omega arith))
          (λ place. by_place place)))
      m
  where
    l1_lt : l1_index va < 1024
    l1_lt = omega (arith, l1_index_lem va h)

    l2_lt : l2_index va < 1024
    l2_lt = omega (arith, l2_index_lem va)

    by_place :
        (place : Place) (m : Machine)
        → Ends (
            (elim place as (λ _. Cmd ℕ) [
              | entered l1 l2 ↦ pure (v_addr l1 l2 (pg_offset va))
              | stopped l1 l2 ↦ if ltb pg_max_entries l1 then pure 0 else do
                done ← vmm_map_internal l1 l2 pa tattr false
                pure (if done then v_addr l1 l2 (pg_offset va) else 0)
            ])
              m)
    by_place (entered l1 l2) m = returned _ _
    by_place (stopped l1 l2) m =
        if-Ends (ltb 1024 l1) (λ n. returned _ _)
          (λ n. then-Ends (map_internal-Ends l1 l2 pa tattr n) (λ done k. returned _ _)) m
