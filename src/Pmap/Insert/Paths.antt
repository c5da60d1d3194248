-- ===== src/Pmap/Insert/Paths.antt =====
-- The four paths through `page_insert` (kern/pmap.c): no table yet, a table with an empty slot, the
-- same page mapped already, another page mapped.
use spring_os.Base.{
  ℕ, ◌^◌, ◌<◌, ◌≡◌, ◌≢◌, refl, inl, inr, true, false, some, [], ◌∷◌, sym, ap, ◌∙◌, subst, arith,
  ltb, ◌==◌, has, Bool-cases,
}
use spring_os.Base.Run.{no_mem, Run, Ensures, returned, failed}
use spring_os.Mmu.{ptx, ppn, is_valid, make_pte, table_pte}
use spring_os.Mmu.Laws.{table_pte-is_valid, ppn-table_pte}
use spring_os.Pmap.{
  PageState, write_words, read_word, pa2page, page_alloc, pgdir_walk, page_insert, insert_at,
  entry_hi,
}
use spring_os.Pmap.FreeList.{
  IsValid, Allocated, page_alloc-Allocated, IsValid-inc_ref, IsValid-words,
}
use spring_os.Pmap.Mapping.{
  pde_of, pte_of, slot_of, mapped, MapsWell, unmapped, write_words_self, write_words_page,
  write_words_other, page_remove-unmapped, page_lookup-some,
}
use spring_os.Pmap.Insert.{
  counts_after, mapped_page, Inserted, Insertable, filled, flushing, created, walk-create,
  mapped-write, insert_fresh-present, insert_fresh-created, insert_fresh-full,
}

module _ {s : PageState} {pgdir va pp perm : ℕ} (asid : ℕ) (v : IsValid s) (m : MapsWell s pgdir va)
    (ins : Insertable s pp perm) where
  Inserted-empty :
      is_valid (pde_of s pgdir va) ≡ true
      → is_valid (pte_of s pgdir va) ≡ false
      → Inserted s pgdir asid pp va perm (filled (flushing s asid va) pgdir pp va perm)
  unfolding mapped counts_after mapped_page
  Inserted-empty present empty =
      let t : PageState = filled (flushing s asid va) pgdir pp va perm in
      let maps : mapped t pgdir va ≡ some (pp, slot_of s pgdir va) =
        mapped-write s pgdir va pp perm (filled (flushing s asid va) pgdir pp va perm) refl present
          (m.table_apart present) (omega (arith, ins.exists, v.small)) ins.flags in
      record {
        valid = IsValid-words _ _ (IsValid-inc_ref pp _ v ins.used);
        slot = slot_of s pgdir va;
        maps = maps;
        found =
            page_lookup-some t pgdir va pp (slot_of s pgdir va) maps (m.table_exists present)
              ins.exists;
        entry = write_words_self _ _ _ _;
        earlier = s.flushed;
        flush = refl;
        counts = λ p used. rw (present, empty);
        kept = λ q i used dir other. write_words_other _ _ _ _ _ _ other;
      }

  Inserted-same :
      is_valid (pde_of s pgdir va) ≡ true
      → is_valid (pte_of s pgdir va) ≡ true
      → (ppn (pte_of s pgdir va) == pp) ≡ true
      → Inserted s pgdir asid pp va perm (record (flushing s asid va) {
        words = write_words s.words (slot_of s pgdir va) (make_pte pp perm);
      })
  unfolding mapped counts_after mapped_page
  Inserted-same present valid same =
      let t : PageState = record (flushing s asid va) {
        words = write_words s.words (slot_of s pgdir va) (make_pte pp perm);
      } in
      let maps : mapped t pgdir va ≡ some (pp, slot_of s pgdir va) =
        mapped-write s pgdir va pp perm
          (record (flushing s asid va) {
            words = write_words s.words (slot_of s pgdir va) (make_pte pp perm);
          })
          refl present (m.table_apart present) (omega (arith, ins.exists, v.small)) ins.flags in
      record {
        valid = IsValid-words _ _ v;
        slot = slot_of s pgdir va;
        maps = maps;
        found =
            page_lookup-some t pgdir va pp (slot_of s pgdir va) maps (m.table_exists present)
              ins.exists;
        entry = write_words_self _ _ _ _;
        earlier = s.flushed;
        flush = refl;
        counts = λ p used. rw (present, valid, same);
        kept = λ q i used dir other. write_words_other _ _ _ _ _ _ other;
      }

  Inserted-other :
      is_valid (pde_of s pgdir va) ≡ true
      → is_valid (pte_of s pgdir va) ≡ true
      → (ppn (pte_of s pgdir va) == pp) ≡ false
      → IsValid (unmapped s pgdir asid va)
      → pde_of (unmapped s pgdir asid va) pgdir va ≡ pde_of s pgdir va
      → Inserted s pgdir asid pp va perm
          (filled (flushing (unmapped s pgdir asid va) asid va) pgdir pp va perm)
  unfolding mapped counts_after mapped_page
  Inserted-other present valid other u dir =
      let t : PageState = filled (flushing (unmapped s pgdir asid va) asid va) pgdir pp va perm in
      let maps : mapped t pgdir va ≡ some (pp, slot_of s pgdir va) =
        subst
          (λ x.
            mapped (filled (flushing (unmapped s pgdir asid va) asid va) pgdir pp va perm) pgdir va
            ≡ some (pp, (ppn x, ptx va)))
          dir
          (mapped-write (unmapped s pgdir asid va) pgdir va pp perm
            (filled (flushing (unmapped s pgdir asid va) asid va) pgdir pp va perm) refl
            (rw dir present) (rw dir (m.table_apart present)) (omega (arith, ins.exists, v.small))
            ins.flags) in
      record {
        valid = IsValid-words _ _ (IsValid-inc_ref pp _ u (ground (arith, ins.used)));
        slot = slot_of s pgdir va;
        maps = maps;
        found =
            page_lookup-some t pgdir va pp (slot_of s pgdir va) maps (m.table_exists present)
              ins.exists;
        entry = rw dir (write_words_self _ _ _ _);
        earlier = entry_hi asid va ∷ s.flushed;
        flush = refl;
        counts = λ p used. rw (present, valid, other) (ground arith);
        kept = λ q i used d o.
            rw dir (write_words_other _ _ _ _ _ _ o ∙ write_words_other _ _ _ _ _ _ o);
      }

  -- The page that becomes the table is not the directory, nor the page to be mapped.
  Inserted-created :
      (q : ℕ) (u : PageState)
      → is_valid (pde_of s pgdir va) ≡ false
      → Allocated (flushing s asid va) q u
      → IsValid u
      → has q u.free ≡ false
      → q ≢ pgdir
      → q ≢ pp
      → Inserted s pgdir asid pp va perm (filled (created u q pgdir va) pgdir pp va perm)
  unfolding mapped counts_after mapped_page
  Inserted-created q u absent al vu out apart other =
      let table : pde_of (created u q pgdir va) pgdir va ≡ table_pte q = write_words_self _ _ _ _ in
      let small : q < 2 ^ 20 = omega (arith, al.exists, v.small) in
      let number : ppn (pde_of (created u q pgdir va) pgdir va) ≡ q =
        rw table (ppn-table_pte q small) in
      let tail : (p : ℕ) → has p s.free ≡ false → (p ≢ q) × (has p u.free ≡ false) =
        λ p h. let h' : has p (q ∷ u.free) ≡ false = rw al.head at h in ground arith in
      let used : has pp u.free ≡ false = (tail pp ins.used).1 in
      let t : PageState = filled (created u q pgdir va) pgdir pp va perm in
      let maps : mapped t pgdir va ≡ some (pp, slot_of (created u q pgdir va) pgdir va) =
        mapped-write (created u q pgdir va) pgdir va pp perm
          (filled (created u q pgdir va) pgdir pp va perm) refl (rw table (table_pte-is_valid q))
          (rw number apart) (omega (arith, ins.exists, v.small)) ins.flags in
      record {
        valid = IsValid-words _ _ (IsValid-inc_ref pp _ (IsValid-inc_ref q _ vu out) used);
        slot = slot_of (created u q pgdir va) pgdir va;
        maps = maps;
        found =
            page_lookup-some t pgdir va pp (slot_of (created u q pgdir va) pgdir va) maps
              (omega (arith, number, al.exists, al.npage)) (omega (arith, ins.exists, al.npage));
        entry = write_words_self _ _ _ _;
        earlier = s.flushed;
        flush = al.flushed;
        counts = λ p h. rw (al.refs, absent) (ground (arith, (tail p h).0));
        kept = λ p i h d o.
            write_words_other _ _ _ _ _ _ o
            ∙ write_words_other _ _ _ _ _ _ d
            ∙ ap (λ (f : ℕ → ℕ). f i) (al.others p (tail p h).0);
      }

  -- The walk has to create the table: the allocation decides.
  page_insert-absent :
      (r : Run PageState ℕ)
      → page_alloc (flushing s asid va) ≡ r
      → Ensures
          (λ q u.
            Allocated (flushing s asid va) q u
            × IsValid u
            × (u.refs q ≡ 0)
            × (has q u.free ≡ false))
          (λ e t. (e ≡ no_mem) × (s.free ≡ []) × (t ≡ flushing s asid va))
          r
      → is_valid (pde_of s pgdir va) ≡ false
      → Ensures
          (λ _ t. Inserted s pgdir asid pp va perm t)
          (λ e t.
            (e ≡ no_mem)
            × (s.free ≡ [])
            × (is_valid (pde_of s pgdir va) ≡ false)
            × (t ≡ flushing s asid va))
          (page_insert pgdir asid pp va perm s)
  unfolding page_insert insert_at pgdir_walk
  page_insert-absent r e (returned {a = q} {s = u} (al, vu, zr, out)) absent =
      let inside : has q s.free ≡ true = rw al.head (ground arith) in
      rw
        (
          absent,
          insert_fresh-created s u pgdir asid pp va perm q absent e
              (omega (arith, al.exists, al.npage)) (omega (arith, al.exists, v.small)),
        )
        (returned (
          Inserted-created q u absent al vu out
            (λ h. cc (m.dir_used, inside, ap (λ (x : ℕ). has x s.free) h))
            (λ h. cc (ins.used, inside, ap (λ (x : ℕ). has x s.free) h))))
  page_insert-absent r e (failed {e = f} {s = t} (nm, full, same)) absent =
      rw (absent, insert_fresh-full s pgdir asid pp va perm f t absent e)
        (failed (nm, full, refl, same))

  page_insert-present :
      is_valid (pde_of s pgdir va) ≡ true
      → Ensures
          (λ _ t. Inserted s pgdir asid pp va perm t)
          (λ e t.
            (e ≡ no_mem)
            × (s.free ≡ [])
            × (is_valid (pde_of s pgdir va) ≡ false)
            × (t ≡ flushing s asid va))
          (page_insert pgdir asid pp va perm s)
  unfolding page_insert insert_at
  page_insert-present present =
      let bound = m.table_exists present in
      rw (walk-create s pgdir va false present bound, read_word)
        (elim (Bool-cases (is_valid (pte_of s pgdir va))) [
          | inr empty ↦
              rw (empty, insert_fresh-present s pgdir asid pp va perm present bound)
                (returned (Inserted-empty present empty))
          | inl valid ↦
              let test : ltb (ppn (pte_of s pgdir va)) s.npage ≡ true =
                ground (arith, m.page_exists present valid) in
              elim (Bool-cases (ppn (pte_of s pgdir va) == pp)) [
                | inl same ↦
                    rw (valid, pa2page, test, same) (returned (Inserted-same present valid same))
                | inr other ↦
                    let (run, u, _) = page_remove-unmapped m asid v present valid in
                    let dir : pde_of (unmapped s pgdir asid va) pgdir va ≡ pde_of s pgdir va =
                      write_words_page _ _ _ _ _ _ (λ e. m.table_apart present (sym e)) in
                    rw
                      (
                        valid,
                        pa2page,
                        test,
                        other,
                        run,
                        insert_fresh-present (unmapped s pgdir asid va) pgdir asid pp va perm
                            (rw dir present) (rw dir bound),
                      )
                      (returned (Inserted-other present valid other u dir))
              ]
        ])

  -- If the free list is well formed, the tables for the address are in order, the page exists
  -- and is in use, and the permissions are flag bits, `page_insert` does not panic: it maps the
  -- address to the page (`page_lookup` finds it there, with the entry for the given
  -- permissions), the reference counts follow the mappings, the TLB entry is flushed, the free
  -- list stays well formed and no other word of a page in use changes but the directory entry;
  -- it fails with -E_NO_MEM only if the table is missing and no page is free, and then it has
  -- only flushed the TLB entry.
  pub page_insert-Inserted :
      Ensures
        (λ _ t. Inserted s pgdir asid pp va perm t)
        (λ e t.
          (e ≡ no_mem)
          × (s.free ≡ [])
          × (is_valid (pde_of s pgdir va) ≡ false)
          × (t ≡ flushing s asid va))
        (page_insert pgdir asid pp va perm s)
  page_insert-Inserted = elim (Bool-cases (is_valid (pde_of s pgdir va))) [
    | inl present ↦ page_insert-present present
    | inr absent ↦ page_insert-absent _ refl (page_alloc-Allocated (IsValid-words _ _ v)) absent
  ]
