-- ===== src/Tlbex/Examples.antt =====
-- A refill of kern/tlbex.c on the machine of Pmap/Examples.
use spring_os.Base.{◌≡◌, refl, false, none}
use spring_os.Base.Run.{Ensures}
use spring_os.Mmu.{pte_addr}
use spring_os.Mmu.Laws.{is_valid-zero}
use spring_os.Pmap.Examples.{machine, machine-IsValid, machine-MapsWell}
use spring_os.Pmap.Mapping.{mapped}
use spring_os.Tlbex.{forbidden, do_tlb_refill}
use spring_os.Tlbex.Refill.{Refilled, do_tlb_refill-Refilled}

allowed_va : forbidden 0x400123 ≡ false
unfolding forbidden
allowed_va = refl

nothing_mapped : mapped machine 1 (pte_addr 0x400123) ≡ none
unfolding mapped
nothing_mapped = rw is_valid-zero

do_tlb_refill-Refilled_example :
    Ensures
      (λ o t. Refilled machine 1 0 0x400123 o t)
      (λ _ _. ⊥)
      (do_tlb_refill 2 0x400123 1 0 machine)
do_tlb_refill-Refilled_example =
    do_tlb_refill-Refilled 1 0 0x400123 machine-IsValid (machine-MapsWell (pte_addr 0x400123))
      allowed_va refl 0 nothing_mapped
