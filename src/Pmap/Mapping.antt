-- ===== src/Pmap/Mapping.antt =====
-- Address translation in kern/pmap.c: what a page table maps an address to, and how `page_lookup`,
-- `page_remove` and `page_insert` read and change it.
use spring_os.Base.{
  ℕ, ◌<◌, ◌≡◌, ◌≢◌, inl, inr, Bool, true, false, Option, none, some, ◌∷◌, sym, ap, arith, ltb, ◌==◌,
  ◌&&◌, if◌then◌else◌, has, Bool-cases, ne→==,
}
use spring_os.Base.Run.{ok}
use spring_os.Mmu.{pdx, ptx, ppn, is_valid}
use spring_os.Mmu.Laws.{is_valid-zero}
use spring_os.Pmap.{
  table_slot, PageState, Slot, write_words, write_word, pgdir_walk, page_lookup, page_remove,
  tlb_invalidate, lookup_at, remove_found, entry_hi,
}
use spring_os.Pmap.FreeList.{IsValid, Allocated, dropped, page_decref-dropped, IsValid-words}

-- The directory entry for an address, the table it names, and the entry of that table.
abbrev pub pde_of : PageState → ℕ → ℕ → ℕ
pde_of s pgdir va = s.words pgdir (pdx va)

abbrev pub pte_of : PageState → ℕ → ℕ → ℕ
pte_of s pgdir va = s.words (ppn (pde_of s pgdir va)) (ptx va)

abbrev pub slot_of : PageState → ℕ → ℕ → Slot
slot_of s pgdir va = (ppn (pde_of s pgdir va), ptx va)

-- The page and the slot that an address is mapped to by the two levels of tables.
unfoldable pub mapped : PageState → ℕ → ℕ → Option (ℕ × Slot)
mapped s pgdir va =
    if is_valid (pde_of s pgdir va)
    then (if is_valid (pte_of s pgdir va)
        then some (ppn (pte_of s pgdir va), slot_of s pgdir va)
        else none)
    else none

-- The tables for one address are in order: the directory is in use, the table is an existing page
-- in use, other than the directory, and a mapped page exists and is counted.
pub record MapsWell (s : PageState) (pgdir va : ℕ) : Type 0 where
  pub dir_used : has pgdir s.free ≡ false
  pub table_exists : is_valid (pde_of s pgdir va) ≡ true → ppn (pde_of s pgdir va) < s.npage
  pub table_used :
      is_valid (pde_of s pgdir va) ≡ true → has (ppn (pde_of s pgdir va)) s.free ≡ false
  pub table_apart : is_valid (pde_of s pgdir va) ≡ true → ppn (pde_of s pgdir va) ≢ pgdir
  pub page_exists :
      is_valid (pde_of s pgdir va) ≡ true
      → is_valid (pte_of s pgdir va) ≡ true
      → ppn (pte_of s pgdir va) < s.npage
  pub page_counted :
      is_valid (pde_of s pgdir va) ≡ true
      → is_valid (pte_of s pgdir va) ≡ true
      → 0 < s.refs (ppn (pte_of s pgdir va))

module _ {s : PageState} {pgdir va : ℕ} (m : MapsWell s pgdir va) where
  walk-present :
      (create : Bool)
      → is_valid (pde_of s pgdir va) ≡ true
      → pgdir_walk pgdir va create s ≡ ok (some (slot_of s pgdir va)) s
  unfolding pgdir_walk
  walk-present create present =
      let test : ltb (ppn (pde_of s pgdir va)) s.npage ≡ true =
        ground (arith, m.table_exists present) in
      rw (present, test)

  walk-absent : is_valid (pde_of s pgdir va) ≡ false → pgdir_walk pgdir va false s ≡ ok none s
  unfolding pgdir_walk
  walk-absent absent = rw absent

  lookup_at-some :
      is_valid (pde_of s pgdir va) ≡ true
      → lookup_at (some (slot_of s pgdir va)) s
        ≡ ok
            (if is_valid (pte_of s pgdir va)
              then some (ppn (pte_of s pgdir va), slot_of s pgdir va)
              else none)
            s
  unfolding lookup_at
  lookup_at-some present = elim (Bool-cases (is_valid (pte_of s pgdir va))) [
    | inl valid ↦
        let test : ltb (ppn (pte_of s pgdir va)) s.npage ≡ true =
          ground (arith, m.page_exists present valid) in
        rw (valid, test)
    | inr empty ↦ rw empty
  ]

  -- Where the tables for the address are in order, `page_lookup` does not panic, changes
  -- nothing, and returns exactly the page and slot of a translation by the two levels of tables.
  pub page_lookup-mapped : page_lookup pgdir va s ≡ ok (mapped s pgdir va) s
  unfolding page_lookup mapped
  page_lookup-mapped = elim (Bool-cases (is_valid (pde_of s pgdir va))) [
    | inl present ↦ rw (walk-present false present, present) (lookup_at-some present)
    | inr absent ↦ rw (walk-absent absent, absent, lookup_at)
  ]

-- The state after the mapping of an address is taken out.
abbrev pub unmapped : PageState → ℕ → ℕ → ℕ → PageState
unmapped s pgdir asid va = record (dropped s (ppn (pte_of s pgdir va))) {
  words = write_words s.words (slot_of s pgdir va) 0;
  flushed = entry_hi asid va ∷ s.flushed;
}

pub write_words_self : (w : ℕ → ℕ → ℕ) (p i v : ℕ) → write_words w (p, i) v p i ≡ v
unfolding write_words
write_words_self w p i v = ground arith

pub write_words_page : (w : ℕ → ℕ → ℕ) (p i v q j : ℕ) → q ≢ p → write_words w (p, i) v q j ≡ w q j
unfolding write_words
write_words_page w p i v q j apart = rw (ne→== q p apart)

module _ {s : PageState} {pgdir va : ℕ} (m : MapsWell s pgdir va) where
  -- With no mapping `page_remove` does nothing.
  pub page_remove-none :
      (asid : ℕ) → mapped s pgdir va ≡ none → page_remove pgdir asid va s ≡ ok tt s
  unfolding page_remove
  page_remove-none asid e = rw (page_lookup-mapped m, e, remove_found)

  -- Where an address is mapped, the free list is well formed, and the directory, the table and
  -- the mapped page are in order (the directory and the table exist and are apart, and the
  -- mapped page exists and has a reference), `page_remove` drops one reference to the page,
  -- frees it at the last one, clears the entry and flushes the TLB entry; the free list stays
  -- well formed and the address is not mapped any more.
  pub page_remove-unmapped :
      (asid : ℕ)
      → IsValid s
      → is_valid (pde_of s pgdir va) ≡ true
      → is_valid (pte_of s pgdir va) ≡ true
      → (page_remove pgdir asid va s ≡ ok tt (unmapped s pgdir asid va))
        × IsValid (unmapped s pgdir asid va)
        × (mapped (unmapped s pgdir asid va) pgdir va ≡ none)
  unfolding page_remove mapped
  page_remove-unmapped asid v present valid =
      let d =
        page_decref-dropped (ppn (pte_of s pgdir va)) v (m.page_exists present valid)
          (m.page_counted present valid) in
      let found : mapped s pgdir va ≡ some (ppn (pte_of s pgdir va), slot_of s pgdir va) =
        rw (present, valid) in
      let still : pde_of (unmapped s pgdir asid va) pgdir va ≡ pde_of s pgdir va =
        write_words_page _ _ _ _ _ _ (λ e. m.table_apart present (sym e)) in
      (
        rw (page_lookup-mapped m, found, remove_found, d.0, write_word, tlb_invalidate),
        IsValid-words _ _ d.1,
        rw (still, present, write_words_self, is_valid-zero),
      )

pub write_words_other :
    (w : ℕ → ℕ → ℕ) (p i v q j : ℕ)
    → ((q == p) && (j == i)) ≡ false
    → write_words w (p, i) v q j ≡ w q j
unfolding write_words
write_words_other w p i v q j other = ground arith

-- Where translation ends at existing pages, `page_lookup` returns its result.
pub page_lookup-some :
    (t : PageState) (pgdir va pp : ℕ) (slot : Slot)
    → mapped t pgdir va ≡ some (pp, slot)
    → slot.0 < t.npage
    → pp < t.npage
    → page_lookup pgdir va t ≡ ok (some (pp, slot)) t
unfolding page_lookup mapped pgdir_walk lookup_at table_slot
page_lookup-some t pgdir va pp slot e table page = ground arith

-- Taking a page off the free list touches none of the tables.
pub MapsWell-alloc :
    {s u : PageState} {pgdir va p : ℕ} → Allocated s p u → MapsWell s pgdir va → MapsWell u pgdir va
MapsWell-alloc {s} {u} {pgdir} {va} {p} al m =
    let tail : (q : ℕ) → has q s.free ≡ false → (q ≢ p) × (has q u.free ≡ false) =
      λ q h. let h' : has q (p ∷ u.free) ≡ false = rw al.head at h in ground arith in
    let dir : pde_of u pgdir va ≡ pde_of s pgdir va =
      ap (λ (f : ℕ → ℕ). f (pdx va)) (al.others pgdir (tail pgdir m.dir_used).0) in
    let entry : is_valid (pde_of s pgdir va) ≡ true → pte_of u pgdir va ≡ pte_of s pgdir va = λ h.
      rw (pte_of, dir) (ap (λ (f : ℕ → ℕ). f (ptx va)) (al.others _ (tail _ (m.table_used h)).0)) in
    record {
      dir_used = (tail pgdir m.dir_used).1;
      table_exists = rw (dir, al.npage) m.table_exists;
      table_used = rw dir (λ h. (tail _ (m.table_used h)).1);
      table_apart = rw dir m.table_apart;
      page_exists = λ h h'.
          let hs = rw dir at h in
          let es = entry hs in rw (es, al.npage) (m.page_exists hs (rw es at h'));
      page_counted = λ h h'.
          let hs = rw dir at h in
          let es = entry hs in rw (es, al.refs) (m.page_counted hs (rw es at h'));
    }
