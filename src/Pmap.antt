-- ===== src/Pmap.antt =====
-- Physical pages and two-level page tables: kern/pmap.c and the page accessors of include/pmap.h.
-- A `struct Page` is known by its index in `pages`, a page directory or page table by the number of
-- the page that holds it, and a slot of a table (a `Pte *`) by that number and an index.
pub mod Early
pub mod Boot
pub mod FreeList
pub mod Insert
pub mod Mapping
pub mod Examples
use spring_os.Base.{
  ℕ, ◌+◌, ◌-◌, ◌*◌, ◌%◌, ◌^◌, Bool, true, false, not, Option, none, some, List, [], ◌∷◌, bit_or,
  ltb, ◌==◌, if◌then◌else◌, has, update,
}
use spring_os.Base.Run.{no_mem, Cmd, ok, panic, pure, fail, fault, get, modify, check, ◌>>=◌, ◌>>◌}
use spring_os.Mmu.{pdx, ptx, ppn, pte_addr, is_valid, make_pte, table_pte}

-- The globals of pmap.c and the contents of memory: `refs p` is `pages[p].pp_ref`, `free` is
-- `page_free_list` from its head, `words p i` is the i-th word of physical page p, and
-- `flushed` lists the EntryHi values given to `tlb_out`, the latest first.
pub record PageState : Type 0 where
  pub npage : ℕ
  pub refs : ℕ → ℕ
  pub free : List ℕ
  pub words : ℕ → ℕ → ℕ
  pub flushed : List ℕ

abbrev pub Slot : Type 0
Slot = ℕ × ℕ

-- Memory with one word replaced.
unfoldable pub write_words : (ℕ → ℕ → ℕ) → Slot → ℕ → ℕ → ℕ → ℕ
write_words m (p, i) v q j = if q == p then (if j == i then v else m q j) else m q j

unfoldable pub read_word : Slot → Cmd PageState ℕ
read_word (p, i) s = ok (s.words p i) s

unfoldable pub write_word : Slot → ℕ → Cmd PageState (Unit {0})
write_word slot v = modify λ s. record s { words = write_words s.words slot v }

-- `pp->pp_ref++` on a `u_short`.
unfoldable pub inc_ref : ℕ → Cmd PageState (Unit {0})
inc_ref pp = modify λ s. record s { refs = update s.refs pp ((s.refs pp + 1) % 2 ^ 16) }

-- KADDR and page2kva: the page that an address lies in, if there is such a page.
unfoldable pub kaddr : ℕ → Cmd PageState ℕ
kaddr p s = if ltb p s.npage then ok p s else panic

unfoldable pub pa2page : ℕ → Cmd PageState ℕ
pa2page pa s = if ltb (ppn pa) s.npage then ok (ppn pa) s else panic

-- The head of the free list is taken off, and then filled with zeros.
take_page : List ℕ → Cmd PageState ℕ
unfolding kaddr
take_page [] = fail no_mem
take_page (pp ∷ rest) = do
  modify λ s. record s { free = rest }
  p ← kaddr pp
  modify λ s. record s { words = update s.words p (λ i. 0) }
  pure pp

unfoldable pub page_alloc : Cmd PageState ℕ
unfolding take_page
page_alloc s = take_page s.free s

-- Inserting a page that is on the list already would tie the list into a knot: a fault.
unfoldable pub page_free : ℕ → Cmd PageState (Unit {0})
page_free pp = do
  s ← get
  check (s.refs pp == 0)
  check (not (has pp s.free))
  modify λ s. record s { free = pp ∷ s.free }

unfoldable pub page_decref : ℕ → Cmd PageState (Unit {0})
unfolding page_free
page_decref pp = do
  s ← get
  check (ltb 0 (s.refs pp))
  modify λ s. record s { refs = update s.refs pp (s.refs pp - 1) }
  if s.refs pp - 1 == 0 then page_free pp else pure tt

-- The EntryHi of an address in an address space, `PTE_ADDR(va) | (asid << 6)`.
unfoldable pub entry_hi : ℕ → ℕ → ℕ
entry_hi asid va = bit_or (pte_addr va) (asid * 2 ^ 6 % 2 ^ 32)

unfoldable pub tlb_invalidate : ℕ → ℕ → Cmd PageState (Unit {0})
tlb_invalidate asid va = modify λ s. record s { flushed = entry_hi asid va ∷ s.flushed }

-- The last step of `pgdir_walk`: the slot in the table that the directory entry names.
table_slot : ℕ → ℕ → Cmd PageState (Option Slot)
unfolding kaddr read_word
table_slot pgdir va = do
  pde ← read_word (pgdir, pdx va)
  pt ← kaddr (ppn pde)
  pure (some (pt, ptx va))

-- The missing table is allocated and entered in the directory.
add_table : ℕ → ℕ → Cmd PageState (Unit {0})
unfolding page_alloc inc_ref write_word
add_table pgdir va = do pp ← page_alloc; inc_ref pp; write_word (pgdir, pdx va) (table_pte pp)

-- `none` is the null `*ppte` of a walk that returns 1.
unfoldable pub pgdir_walk : ℕ → ℕ → Bool → Cmd PageState (Option Slot)
unfolding table_slot add_table read_word
pgdir_walk pgdir va create = do
  pde ← read_word (pgdir, pdx va)
  if is_valid pde
      then table_slot pgdir va
      else if create
      then (add_table pgdir va >> table_slot pgdir va)
      else pure none

-- The rest of `page_lookup`, once the walk has returned.
lookup_at : Option Slot → Cmd PageState (Option (ℕ × Slot))
unfolding pa2page read_word
lookup_at none = pure none
lookup_at (some slot) = do
  pte ← read_word slot
  if is_valid pte then (do pp ← pa2page pte; pure (some (pp, slot))) else pure none

-- The page mapped at `va` and its slot; `none` is the null pointer.
unfoldable pub page_lookup : ℕ → ℕ → Cmd PageState (Option (ℕ × Slot))
unfolding pgdir_walk lookup_at
page_lookup pgdir va = pgdir_walk pgdir va false >>= lookup_at

remove_found : ℕ → ℕ → Option (ℕ × Slot) → Cmd PageState (Unit {0})
unfolding page_decref write_word tlb_invalidate
remove_found asid va none = pure tt
remove_found asid va (some (pp, slot)) = do
  page_decref pp
  write_word slot 0
  tlb_invalidate asid va

unfoldable pub page_remove : ℕ → ℕ → ℕ → Cmd PageState (Unit {0})
unfolding page_lookup remove_found
page_remove pgdir asid va = page_lookup pgdir va >>= remove_found asid va

-- Steps 2 to 4 of `page_insert`. (A walk that creates gives a slot.)
fill_slot : ℕ → ℕ → Option Slot → Cmd PageState (Unit {0})
unfolding write_word inc_ref
fill_slot pp perm none = fault
fill_slot pp perm (some slot) = do write_word slot (make_pte pp perm); inc_ref pp

insert_fresh : ℕ → ℕ → ℕ → ℕ → ℕ → Cmd PageState (Unit {0})
unfolding tlb_invalidate pgdir_walk fill_slot
insert_fresh pgdir asid pp va perm = do
  tlb_invalidate asid va
  slot ← pgdir_walk pgdir va true
  fill_slot pp perm slot

-- The early part of `page_insert`, on the slot that the first walk found.
insert_at : ℕ → ℕ → ℕ → ℕ → ℕ → Option Slot → Cmd PageState (Unit {0})
unfolding insert_fresh page_remove tlb_invalidate read_word write_word pa2page
insert_at pgdir asid pp va perm none = insert_fresh pgdir asid pp va perm
insert_at pgdir asid pp va perm (some slot) = do
  pte ← read_word slot
  if is_valid pte
      then (do
        mapped ← pa2page pte
        if mapped == pp
            then (do tlb_invalidate asid va; write_word slot (make_pte pp perm))
            else (do page_remove pgdir asid va; insert_fresh pgdir asid pp va perm))
      else insert_fresh pgdir asid pp va perm

unfoldable pub page_insert : ℕ → ℕ → ℕ → ℕ → ℕ → Cmd PageState (Unit {0})
unfolding pgdir_walk insert_at
page_insert pgdir asid pp va perm = pgdir_walk pgdir va false >>= insert_at pgdir asid pp va perm

-- The physical page address of `va`, or all ones.
unfoldable pub va2pa : ℕ → ℕ → Cmd PageState ℕ
unfolding read_word kaddr
va2pa pgdir va = do
  pde ← read_word (pgdir, pdx va)
  if is_valid pde
      then (do
        pt ← kaddr (ppn pde)
        pte ← read_word (pt, ptx va)
        pure (if is_valid pte then pte_addr pte else 2 ^ 32 - 1))
      else pure (2 ^ 32 - 1)
