-- ===== src/Tlbex/Refill.antt =====
-- `_do_tlb_refill` of kern/tlbex.c ends after at most one allocation.
use spring_os.Base.{
  ℕ, suc, ◌≡◌, refl, sym, ◌∙◌, ap, false, Option, none, some, List, [], ◌∷◌, arith,
}
use spring_os.Base.Run.{
  Error, Run, ok, Ensures, returned, failed, Ensures-bind, Ensures-mono, and_then,
}
use spring_os.Mmu.{pdx, ptx, pte_addr, pte_d, make_pte}
use spring_os.Pmap.{PageState, Slot, page_lookup, read_word}
use spring_os.Pmap.FreeList.{IsValid, Allocated, page_alloc-Allocated}
use spring_os.Pmap.Mapping.{MapsWell, MapsWell-alloc, mapped, page_lookup-mapped}
use spring_os.Pmap.Insert.{Inserted}
use spring_os.Pmap.Insert.Paths.{page_insert-Inserted}
use spring_os.Base.Run.{panic_on}
use spring_os.Tlbex.{forbidden, passive_alloc, refill_with, do_tlb_refill}

pdx-pte_addr : (va : ℕ) → pdx (pte_addr va) ≡ pdx va
unfolding pdx pte_addr
pdx-pte_addr va = omega arith

ptx-pte_addr : (va : ℕ) → ptx (pte_addr va) ≡ ptx va
unfolding ptx pte_addr
ptx-pte_addr va = omega arith

page_lookup-pte_addr :
    (pgdir va : ℕ) (s : PageState) → page_lookup pgdir (pte_addr va) s ≡ page_lookup pgdir va s
unfolding page_lookup
page_lookup-pte_addr pgdir va s = rw (pdx-pte_addr va, ptx-pte_addr va) refl

-- An error that cannot happen is no panic either.
Ensures-panic_on :
    {S A : Type 0} {Q : A → S → Type 0} {E : Error → S → Type 0} {r : Run S A}
    → Ensures Q E r
    → ((e : Error) (s : S) → E e s → ⊥)
    → Ensures Q (λ _ _. ⊥) (panic_on r)
unfolding panic_on
Ensures-panic_on (returned q) never = returned q
Ensures-panic_on (failed e) never = absurd (never _ _ e)

-- A refill at an address that was not mapped: page `p`, filled with zeros, is mapped writable.
pub record Refilled (s : PageState) (pgdir asid va : ℕ) (o : Option ℕ) (t : PageState)
    : Type 0 where
  pub page : ℕ
  pub zeroed : PageState
  pub allocated : Allocated s page zeroed
  pub inserted : Inserted zeroed pgdir asid page (pte_addr va) pte_d t
  pub entry : o ≡ some (make_pte page pte_d)

module _ (pgdir asid va : ℕ) where
  pub do_tlb_refill-hit :
      (rounds : ℕ) {s : PageState} {pp : ℕ} {slot : Slot}
      → page_lookup pgdir va s ≡ ok (some (pp, slot)) s
      → do_tlb_refill (suc rounds) va pgdir asid s ≡ ok (some (s.words slot.0 slot.1)) s
  unfolding do_tlb_refill refill_with read_word
  do_tlb_refill-hit rounds e = rw e refl

  do_tlb_refill-miss :
      (rounds : ℕ) {s : PageState}
      → page_lookup pgdir va s ≡ ok none s
      → do_tlb_refill (suc rounds) va pgdir asid s
        ≡ and_then (passive_alloc va pgdir asid s) (λ _. do_tlb_refill rounds va pgdir asid)
  unfolding do_tlb_refill refill_with
  do_tlb_refill-miss rounds e = rw e refl

  -- What `passive_alloc` leaves.
  Filled : PageState → PageState → Type 0
  Filled s t =
      (p : ℕ) × (u : PageState) × Allocated s p u × Inserted u pgdir asid p (pte_addr va) pte_d t

  module _ {s : PageState} (v : IsValid s) (m : MapsWell s pgdir (pte_addr va))
      (allowed : forbidden va ≡ false) {p q : ℕ} {rest : List ℕ}
      (free : s.free ≡ p ∷ q ∷ rest) where
    passive_alloc-Filled : Ensures (λ _ t. Filled s t) (λ _ _. ⊥) (passive_alloc va pgdir asid s)
    unfolding passive_alloc Filled
    passive_alloc-Filled = rw allowed (
        Ensures-bind
          (Ensures-panic_on (page_alloc-Allocated v)
            (λ e t (_, empty, _). let no : p ∷ q ∷ rest ≡ [] = sym free ∙ empty in cc))
          (λ p' u (al, vu, zr, out).
            Ensures-mono
              (Ensures-panic_on
                (page_insert-Inserted asid vu (MapsWell-alloc al m) (record {
                  exists = omega (arith, al.exists, al.npage);
                  used = out;
                  flags = omega arith;
                }))
                (λ e t (_, empty, _, _).
                  let no : p ∷ q ∷ rest ≡ p' ∷ [] = sym free ∙ al.head ∙ ap (λ l. p' ∷ l) empty in
                  cc))
              (λ _ t ins. (p', u, al, ins)) (λ e t no. no)))

    -- At an allowed address whose page is not mapped, with a well-formed free list of at least
    -- two pages and tables in order, the refill ends in two rounds without a panic: it maps a
    -- free page filled with zeros, writable, at the page of the address and returns its entry.
    pub do_tlb_refill-Refilled :
        (rounds : ℕ)
        → mapped s pgdir (pte_addr va) ≡ none
        → Ensures
            (λ o t. Refilled s pgdir asid va o t)
            (λ _ _. ⊥)
            (do_tlb_refill (suc (suc rounds)) va pgdir asid s)
    unfolding Filled
    do_tlb_refill-Refilled rounds nothing =
        let missing : page_lookup pgdir va s ≡ ok none s =
          sym (page_lookup-pte_addr pgdir va s) ∙ page_lookup-mapped m ∙ ap (λ o. ok o s) nothing in
        rw (do_tlb_refill-miss (suc rounds) missing) (
          Ensures-bind passive_alloc-Filled (λ _ t (p', u, al, ins).
            rw (do_tlb_refill-hit rounds (sym (page_lookup-pte_addr pgdir va t) ∙ ins.found)) (
              returned (record {
                page = p';
                zeroed = u;
                allocated = al;
                inserted = ins;
                entry = ap (λ w. some w) ins.entry;
              }))))
