-- ===== src/Pmap/Examples.antt =====
-- The theorems about kern/pmap.c at a machine of sixteen pages.
use spring_os.Base.{ℕ, ◌+◌, ◌≡◌, refl, false, none, [], ◌∷◌, arith, ltb, ◌==◌, if◌then◌else◌}
use spring_os.Base.Run.{no_mem, ok, Ensures}
use spring_os.Mmu.{is_valid, make_pte, table_pte, ulim, ppn, pdx, ptx, round_up}
use spring_os.Mmu.Laws.{
  is_valid-zero, make_pte-is_valid, table_pte-is_valid, ppn-table_pte, ppn-make_pte,
}
use spring_os.Pmap.{PageState, page_lookup, page_remove, page_insert}
use spring_os.Pmap.Boot.{page_init, Initialised, page_init-Initialised}
use spring_os.Pmap.FreeList.{IsValid}
use spring_os.Pmap.Mapping.{
  MapsWell, mapped, unmapped, pde_of, pte_of, page_lookup-mapped, page_remove-unmapped,
}
use spring_os.Pmap.Insert.{Inserted, flushing}
use spring_os.Pmap.Insert.Paths.{page_insert-Inserted}

-- Pages 0 to 3 are in use, 4 and 5 are free, and page 1 is an empty directory.
abbrev pub machine : PageState
machine = record {
  npage = 16;
  refs = λ p. if ltb p 4 then 1 else 0;
  free = 4 ∷ 5 ∷ [];
  words = λ p i. 0;
  flushed = [];
}

pub machine-IsValid : IsValid machine
machine-IsValid = record {
  small = omega arith;
  distinct = (refl, (refl, tt));
  bounded = λ p h. ground arith;
  unreferenced = λ p h. ground arith;
}

pub machine-MapsWell : (va : ℕ) → MapsWell machine 1 va
machine-MapsWell va = record {
  dir_used = refl;
  table_exists = λ h. cc is_valid-zero;
  table_used = λ h. cc is_valid-zero;
  table_apart = λ h. cc is_valid-zero;
  page_exists = λ h h'. cc is_valid-zero;
  page_counted = λ h h'. cc is_valid-zero;
}

page_lookup-mapped_example : page_lookup 1 0x400000 machine ≡ ok (mapped machine 1 0x400000) machine
page_lookup-mapped_example = page_lookup-mapped (machine-MapsWell 0x400000)

page_insert-Inserted_example :
    Ensures
      (λ _ t. Inserted machine 1 7 2 0x400000 0x400 t)
      (λ e t.
        (e ≡ no_mem)
        × (machine.free ≡ [])
        × (is_valid (pde_of machine 1 0x400000) ≡ false)
        × (t ≡ flushing machine 7 0x400000))
      (page_insert 1 7 2 0x400000 0x400 machine)
page_insert-Inserted_example =
    page_insert-Inserted 7 machine-IsValid (machine-MapsWell 0x400000)
      (record { exists = omega arith; used = refl; flags = omega arith })

-- The same machine with page 3 mapped at address 0x400000, through the table in page 2.
abbrev mapping : PageState
mapping = record machine {
  words = λ p i.
      if p == 1
      then (if i == 1 then table_pte 2 else 0)
      else if p == 2
      then (if i == 0 then make_pte 3 0x400 else 0)
      else 0;
}

number2 : ppn (table_pte 2) ≡ 2
number2 = ppn-table_pte 2 (omega arith)

number3 : ppn (make_pte 3 0x400) ≡ 3
number3 = ppn-make_pte 3 0x400 (omega arith) (omega arith)

mapping-pte : pte_of mapping 1 0x400000 ≡ make_pte 3 0x400
unfolding pdx ptx
mapping-pte = rw number2

mapping-IsValid : IsValid mapping
mapping-IsValid = record {
  small = omega arith;
  distinct = (refl, (refl, tt));
  bounded = λ p h. ground arith;
  unreferenced = λ p h. ground arith;
}

mapping-MapsWell : MapsWell mapping 1 0x400000
unfolding pdx
mapping-MapsWell = record {
  dir_used = refl;
  table_exists = λ h. rw number2 (omega arith);
  table_used = λ h. rw number2 refl;
  table_apart = λ h. rw number2 (omega arith);
  page_exists = λ h h'. rw (mapping-pte, number3) (omega arith);
  page_counted = λ h h'. rw (mapping-pte, number3) (omega arith);
}

page_remove-unmapped_example :
    (page_remove 1 7 0x400000 mapping ≡ ok tt (unmapped mapping 1 7 0x400000))
    × IsValid (unmapped mapping 1 7 0x400000)
    × (mapped (unmapped mapping 1 7 0x400000) 1 0x400000 ≡ none)
unfolding pdx
page_remove-unmapped_example =
    page_remove-unmapped mapping-MapsWell 7 mapping-IsValid (table_pte-is_valid 2)
      (rw mapping-pte (make_pte-is_valid 3 0x400))

page_init-Initialised_example :
    Ensures
      (λ _ t. Initialised (ulim + 0x2345) machine t)
      (λ e t. ⊥)
      (page_init (ulim + 0x2345) machine)
unfolding round_up ppn
page_init-Initialised_example =
    page_init-Initialised (ulim + 0x2345) machine (omega arith) (omega arith) (omega arith)
