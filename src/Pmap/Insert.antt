-- ===== src/Pmap/Insert.antt =====
-- `page_insert` of kern/pmap.c: on every path the address is mapped to the given page afterwards,
-- the reference counts follow the mappings, and no other word of memory in use changes.
pub mod Paths
use spring_os.Base.{
  ℕ, ◌+◌, ◌-◌, ◌%◌, ◌^◌, ◌≤◌, ◌<◌, ◌≡◌, ◌≢◌, refl, ◌⊎◌, inl, inr, Bool, true, false, ◌&&◌, Option,
  none, some, List, [], ◌∷◌, sym, arith, ltb, ◌==◌, if◌then◌else◌, has, update, Distinct,
  Bool-cases, ne→==, eq→==,
}
use spring_os.Base.Run.{
  Error, no_mem, Run, ok, err, and_then, Ensures, returned, failed, Ensures-bind,
}
use spring_os.Mmu.{pdx, ptx, ppn, is_valid, make_pte, table_pte}
use spring_os.Mmu.Laws.{make_pte-is_valid, ppn-make_pte, table_pte-is_valid, ppn-table_pte}
use spring_os.Pmap.{
  PageState, Slot, write_words, read_word, write_word, inc_ref, pa2page, kaddr, page_alloc,
  pgdir_walk, page_lookup, page_remove, page_insert, tlb_invalidate, table_slot, add_table,
  fill_slot, insert_fresh, insert_at, entry_hi,
}
use spring_os.Pmap.FreeList.{
  IsValid, Allocated, dropped, page_alloc-Allocated, IsValid-inc_ref, IsValid-words,
}
use spring_os.Pmap.Mapping.{
  pde_of, pte_of, slot_of, mapped, MapsWell, unmapped, write_words_self, write_words_page,
  write_words_other, page_remove-unmapped,
}

-- The reference count of page `p` after `pp` takes the place of `old` (if any page was mapped).
unfoldable pub counts_after : Option ℕ → ℕ → (ℕ → ℕ) → ℕ → ℕ
counts_after none pp refs p = if p == pp then (refs pp + 1) % 2 ^ 16 else refs p
counts_after (some old) pp refs p =
    if old == pp
    then refs p
    else if p == pp
    then (refs pp + 1) % 2 ^ 16
    else if p == old
    then refs old - 1
    else refs p

-- The page that an address is mapped to, without its slot.
unfoldable pub mapped_page : Option (ℕ × Slot) → Option ℕ
mapped_page none = none
mapped_page (some (p, slot)) = some p

-- What a successful `page_insert` leaves behind.
pub record Inserted (s : PageState) (pgdir asid pp va perm : ℕ) (t : PageState) : Type 0 where
  pub valid : IsValid t
  pub slot : Slot
  pub maps : mapped t pgdir va ≡ some (pp, slot)
  pub found : page_lookup pgdir va t ≡ ok (some (pp, slot)) t
  pub entry : t.words slot.0 slot.1 ≡ make_pte pp perm
  pub earlier : List ℕ
  pub flush : t.flushed ≡ entry_hi asid va ∷ earlier
  pub counts :
      (p : ℕ)
      → has p s.free ≡ false
      → t.refs p ≡ counts_after (mapped_page (mapped s pgdir va)) pp s.refs p
  pub kept :
      (q i : ℕ)
      → has q s.free ≡ false
      → ((q == pgdir) && (i == pdx va)) ≡ false
      → ((q == slot.0) && (i == slot.1)) ≡ false
      → t.words q i ≡ s.words q i

-- The state after an entry is written and its page counted.
abbrev filled : PageState → ℕ → ℕ → ℕ → ℕ → PageState
filled s pgdir pp va perm = record s {
  words = write_words s.words (slot_of s pgdir va) (make_pte pp perm);
  refs = update s.refs pp ((s.refs pp + 1) % 2 ^ 16);
}

abbrev pub flushing : PageState → ℕ → ℕ → PageState
flushing s asid va = record s { flushed = entry_hi asid va ∷ s.flushed }

walk-create :
    (s : PageState) (pgdir va : ℕ) (create : Bool)
    → is_valid (pde_of s pgdir va) ≡ true
    → ppn (pde_of s pgdir va) < s.npage
    → pgdir_walk pgdir va create s ≡ ok (some (slot_of s pgdir va)) s
unfolding pgdir_walk
walk-create s pgdir va create present bound =
    let test : ltb (ppn (pde_of s pgdir va)) s.npage ≡ true = ground arith in rw (present, test)

-- Translation after a write of an entry into the slot of the address.
mapped-write :
    (s : PageState) (pgdir va pp perm : ℕ) (t : PageState)
    → t.words ≡ write_words s.words (slot_of s pgdir va) (make_pte pp perm)
    → is_valid (pde_of s pgdir va) ≡ true
    → ppn (pde_of s pgdir va) ≢ pgdir
    → pp < 2 ^ 20
    → perm < 2 ^ 12
    → mapped t pgdir va ≡ some (pp, slot_of s pgdir va)
unfolding mapped
mapped-write s pgdir va pp perm t e present apart small low =
    let dir : t.words pgdir (pdx va) ≡ s.words pgdir (pdx va) =
      rw e (write_words_page _ _ _ _ _ _ (λ h. apart (sym h))) in
    let here : pte_of t pgdir va ≡ make_pte pp perm =
      rw (pte_of, dir, e) (write_words_self _ _ _ _) in
    rw (here, dir, present, make_pte-is_valid pp perm, ppn-make_pte pp perm small low)

insert_fresh-present :
    (s : PageState) (pgdir asid pp va perm : ℕ)
    → is_valid (pde_of s pgdir va) ≡ true
    → ppn (pde_of s pgdir va) < s.npage
    → insert_fresh pgdir asid pp va perm s ≡ ok tt (filled (flushing s asid va) pgdir pp va perm)
unfolding insert_fresh
insert_fresh-present s pgdir asid pp va perm present bound =
    rw
      (walk-create (flushing s asid va) pgdir va true present bound, fill_slot, write_word, inc_ref)

-- The conditions on the arguments: an existing page in use, and flag bits only.
pub record Insertable (s : PageState) (pp perm : ℕ) : Type 0 where
  pub exists : pp < s.npage
  pub used : has pp s.free ≡ false
  pub flags : perm < 2 ^ 12

-- The state after page `q` becomes the table for the address.
abbrev created : PageState → ℕ → ℕ → ℕ → PageState
created u q pgdir va = record u {
  refs = update u.refs q ((u.refs q + 1) % 2 ^ 16);
  words = write_words u.words (pgdir, pdx va) (table_pte q);
}

insert_fresh-created :
    (s u : PageState) (pgdir asid pp va perm q : ℕ)
    → is_valid (pde_of s pgdir va) ≡ false
    → page_alloc (flushing s asid va) ≡ ok q u
    → q < u.npage
    → q < 2 ^ 20
    → insert_fresh pgdir asid pp va perm s ≡ ok tt (filled (created u q pgdir va) pgdir pp va perm)
unfolding insert_fresh pgdir_walk add_table table_slot
insert_fresh-created s u pgdir asid pp va perm q absent e bound small =
    let test : ltb q u.npage ≡ true = ground arith in
    rw (
      absent,
      e,
      write_words_self u.words pgdir (pdx va) (table_pte q),
      ppn-table_pte q small,
      test,
      fill_slot,
      write_word,
      inc_ref,
    )

insert_fresh-full :
    (s : PageState) (pgdir asid pp va perm : ℕ) (f : Error) (t : PageState)
    → is_valid (pde_of s pgdir va) ≡ false
    → page_alloc (flushing s asid va) ≡ err f t
    → insert_fresh pgdir asid pp va perm s ≡ err f t
unfolding insert_fresh pgdir_walk add_table table_slot
insert_fresh-full s pgdir asid pp va perm f t absent e = rw (absent, e)
