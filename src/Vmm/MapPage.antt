-- ===== src/Vmm/MapPage.antt =====
-- kernel/mm/vmm.c: vmm_map_page of a page that has no mapping.
use os_learn.Base.{
  ℕ, suc, ◌*◌, ◌/◌, ◌%◌, ◌^◌, ◌<◌, ◌≡◌, ◌≢◌, ◌⊎◌, refl, sym, ◌∙◌, true, false, arith, if◌then◌else◌,
  ltb, ne→==, eq→==, Bool-cases, inl, inr,
}
use native.Mathlib.Decide.{ℕ_discrete}
use os_learn.Paging.{
  new_entry, new_entry_lem, l1_index, l2_index, pg_offset, v_addr, v_addr-indices,
}
use os_learn.Mmu.{Machine, Run, ok, write_word}
use os_learn.Vmm.{
  entered, stopped, Cursor, next_table, enter_slot, find_slot, scan_fuel, vmm_map_internal,
  vmm_map_page,
}
use os_learn.Vmm.Tables.{
  IsPaged, dir_entry, table_frame, SetsEntry, IsHeld, load_l1, load_l2, store_l2,
}
use os_learn.Vmm.Keep.{written-IsPaged, entry_at-written}
use os_learn.Vmm.Map.{Maps, map_internal-Maps}
use os_learn.Vmm.Pages.{
  page_limit, entry_page, first_index, second_index, region_lt, same_page, set_page,
}
use os_learn.Vmm.Unwind.{SamePages}

-- What vmm_map_page does with a page that has no mapping: it enters the mapping and returns the address,
-- or it returns 0 and the pages are as before.
pub record MapsPage (m : Machine) (q : ℕ) (run : Run ℕ) : Type 0 where
  pub result : ℕ
  pub after : Machine
  pub returns : run ≡ ok result after
  pub paged : IsPaged after
  pub ends :
      ((result ≡ 0) × SamePages m after)
      ⊎ ((result ≡ q * 4096)
          × (entry_page after q % 2 ≡ 1)
          × ((t : ℕ) → t < page_limit → t ≢ q → entry_page after t ≡ entry_page m t))

module _ (m : Machine) (paged : IsPaged m) (q pa attr : ℕ) (h : q < page_limit) (pos : 0 < q)
    (small : pa < 2 ^ 32) (got : pa ≢ 0) (odd : attr % 2 ≡ 1) (vacant : entry_page m q ≡ 0) where
  abbrev va : ℕ
  va = q * 4096

  abbrev i : ℕ
  i = l1_index va

  abbrev j : ℕ
  j = l2_index va

  i_lt : i < 1023
  i_lt = omega (arith, first_index q h, region_lt q h)

  j_lt : j < 1024
  j_lt = omega (arith, second_index q h)

  back_address : v_addr i j (pg_offset va) ≡ va
  back_address = v_addr-indices va (omega (arith, h))

  abbrev start : Cursor
  start = record { l1 = i; l2 = j; pte = dir_entry m i }

  find_slot-entered :
      (fuel : ℕ)
      → dir_entry m i ≢ 0
      → find_slot (suc fuel) pa attr start m
        ≡ ok (entered i j) (write_word m (table_frame m i) j (new_entry attr pa))
  unfolding find_slot next_table enter_slot entry_page
  find_slot-entered fuel there =
      let inside : ltb i 1024 ≡ true = ground (arith, i_lt) in
      let present' = paged.present i i_lt there in
      let empty : m.mem (table_frame m i) j ≡ 0 =
        (rw (sym (first_index q h), sym (second_index q h), ne→== (dir_entry m i) 0 there) at
          vacant) in
      rw
        (
          ne→== (dir_entry m i) 0 there,
          inside,
          ne→== j 1024 (omega (arith, j_lt)),
          load_l2 m paged i j (omega (arith, i_lt)) j_lt present',
          empty,
          store_l2 m paged i j (new_entry attr pa) (omega (arith, i_lt)) j_lt present',
          find_slot,
        )
        refl

  find_slot-stopped :
      (fuel : ℕ) → dir_entry m i ≡ 0 → find_slot (suc fuel) pa attr start m ≡ ok (stopped i j) m
  unfolding find_slot
  find_slot-stopped fuel empty = rw (eq→== (dir_entry m i) 0 empty, find_slot) refl

  -- The one entry that is set is the page's.
  set-ends :
      (m' : Machine)
      → SetsEntry m i j (new_entry attr pa) m'
      → (entry_page m' q % 2 ≡ 1)
        × ((t : ℕ) → t < page_limit → t ≢ q → entry_page m' t ≡ entry_page m t)
  set-ends m' sets =
      let at : SetsEntry m (q / 1024) (q % 1024) (new_entry attr pa) m' =
        (rw (first_index q h, second_index q h) at sets) in
      (
        rw (set_page m m' q (new_entry attr pa) at q h, eq→== q q refl)
            (omega (arith, odd, new_entry_lem attr pa small)),
        λ t ht ne. set_page m m' q (new_entry attr pa) at t ht ∙ rw (ne→== t q ne) refl,
      )

  -- The mapping that vmm_map_page makes; where it makes none, the frames that are held stay so.
  pub vmm_map_page-MapsPage :
      (r : MapsPage m q (vmm_map_page va pa attr m)) × (r.result ≡ 0
        → (g : ℕ) → IsHeld m g
        → IsHeld r.after g)
  unfolding vmm_map_page scan_fuel
  vmm_map_page-MapsPage = elim (ℕ_discrete (dir_entry m i) 0) [
    | no there ↦
        let written = write_word m (table_frame m i) j (new_entry attr pa) in
        let (odd_now, others) =
          set-ends written (entry_at-written m paged i j (new_entry attr pa) i_lt there) in
        rw
          (
            ne→== pa 0 got,
            ne→== va 0 (omega (arith, pos)),
            load_l1 m paged i (omega (arith, i_lt)),
            find_slot-entered 1048577 there,
            back_address,
          )
          (
            record {
              result = va;
              after = written;
              returns = refl;
              paged = written-IsPaged m paged i j (new_entry attr pa) i_lt there;
              ends = inr (refl, odd_now, others);
            },
            λ none'. absurd (omega (arith, none', pos)),
          )
    | yes empty ↦
        let maps = map_internal-Maps m i j pa attr paged i_lt j_lt odd in
        let inside : ltb 1024 i ≡ false = ground (arith, i_lt) in
        rw
          (
            ne→== pa 0 got,
            ne→== va 0 (omega (arith, pos)),
            load_l1 m paged i (omega (arith, i_lt)),
            find_slot-stopped 1048577 empty,
            inside,
            maps.returns,
            back_address,
          )
          (by_done maps)
  ]
    where
      by_done :
          (maps : Maps m i j (new_entry attr pa) (vmm_map_internal i j pa attr false m))
          → (r : MapsPage m q (ok (if maps.done then va else 0) maps.after)) × (r.result ≡ 0
              → (g : ℕ) → IsHeld m g
              → IsHeld r.after g)
      by_done maps = elim (Bool-cases maps.done) [
        | inl hit ↦
            let (odd_now, others) = set-ends maps.after (maps.hit hit).1 in
            rw hit (
              record {
                result = va;
                after = maps.after;
                returns = refl;
                paged = maps.keeps;
                ends = inr (refl, odd_now, others);
              },
              λ none'. absurd (omega (arith, none', pos)),
            )
        | inr miss ↦ rw miss (
          record {
            result = 0;
            after = maps.after;
            returns = refl;
            paged = maps.keeps;
            ends = inl (refl, same_page m maps.after (maps.miss miss));
          },
          λ _. maps.held,
        )
      ]
