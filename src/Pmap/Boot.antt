-- ===== src/Pmap/Boot.antt =====
-- Start-up of physical memory: `page_init` of kern/pmap.c.
use spring_os.Base.{
  ℕ, zero, suc, ◌+◌, ◌-◌, ◌^◌, ◌≤◌, ◌<◌, ◌≡◌, refl, Bool, true, false, [], ◌∷◌, inl, inr, ◌∙◌, ◌&&◌,
  arith, ltb, leb, if◌then◌else◌, has, update, Distinct, Bool-cases,
}
use spring_os.Base.Run.{Cmd, ok, panic, Ensures, returned}
use spring_os.Mmu.{ppn, round_up, by2pg, ulim}
use spring_os.Pmap.{PageState}
use spring_os.Pmap.FreeList.{IsValid}

-- `for (i = 0; i < n; i++) pages[i].pp_ref = 1;`
mark_used : ℕ → (ℕ → ℕ) → ℕ → ℕ
mark_used zero refs = refs
mark_used (suc n) refs = update (mark_used n refs) n 1

-- `for (; n > 0; i++, n--) { LIST_INSERT_HEAD(&page_free_list, &pages[i]); pages[i].pp_ref = 0; }`
mark_free : (n i : ℕ) → PageState → PageState
mark_free zero i s = s
mark_free (suc n) i s =
    mark_free n (i + 1) (record s { free = i ∷ s.free; refs = update s.refs i 0 })

-- `freemem` is the first kernel address that start-up has not given away: PADDR panics below ULIM,
-- and `pa2page` beyond the last page.
unfoldable pub page_init : ℕ → Cmd PageState (Unit {0})
unfolding mark_used mark_free round_up ppn
page_init freemem s =
    let aligned = round_up freemem by2pg in
    let used = ppn (aligned - ulim) in
    let start : PageState = record s { free = []; refs = mark_used used s.refs } in
    if ltb aligned ulim
    then panic
    else if ltb used s.npage
    then ok tt (mark_free (s.npage - used) used start)
    else panic

-- The free list after the loop: the pages from `lo` up, each once, none referenced.
record Loop (lo hi : ℕ) (s : PageState) : Type 0 where
  distinct : Distinct s.free
  range : (p : ℕ) → has p s.free ≡ true → (lo ≤ p) × (p < hi)
  unreferenced : (p : ℕ) → has p s.free ≡ true → s.refs p ≡ 0
  complete : (p : ℕ) → lo ≤ p → p < hi → has p s.free ≡ true

mark_used-eq : (n : ℕ) (refs : ℕ → ℕ) (p : ℕ) → mark_used n refs p ≡ (if ltb p n then 1 else refs p)
unfolding mark_used
mark_used-eq zero refs p = ground arith
mark_used-eq (suc n) refs p = ground (arith, mark_used-eq n refs p)

mark_free-Loop :
    (n lo i : ℕ) (s : PageState)
    → lo ≤ i
    → Loop lo i s
    → Loop lo (i + n) (mark_free n i s)
      × ((p : ℕ) → p < i → (mark_free n i s).refs p ≡ s.refs p)
      × ((mark_free n i s).npage ≡ s.npage)
      × ((mark_free n i s).words ≡ s.words)
unfolding mark_free
mark_free-Loop zero lo i s le l =
    let e : i + 0 ≡ i = omega arith in (rw e l, λ p h. refl, refl, refl)
mark_free-Loop (suc n) lo i s le l =
    let out : has i s.free ≡ false = elim (Bool-cases (has i s.free)) [
      | inl inside ↦ absurd (omega (arith, l.range i inside))
      | inr outside ↦ outside
    ] in
    let s' : PageState = record s { free = i ∷ s.free; refs = update s.refs i 0 } in
    let l' : Loop lo (i + 1) s' = record {
      distinct = (out, l.distinct);
      range = λ p h. ground (arith, l.range p);
      unreferenced = λ p h. ground (arith, l.unreferenced p);
      complete = λ p a b. ground (arith, l.complete p);
    } in
    let (r, same, np, ws) = mark_free-Loop n lo (i + 1) s' (omega arith) l' in
    let e : i + suc n ≡ i + 1 + n = omega arith in (rw e r, λ p h. ground (arith, same p), np, ws)

-- What `page_init` leaves: every page from the first unused one up is on the list, and no other;
-- those below have the reference count 1.
pub record Initialised (freemem : ℕ) (s t : PageState) : Type 0 where
  pub valid : IsValid t
  pub npage : t.npage ≡ s.npage
  pub words : t.words ≡ s.words
  pub on_list :
      (p : ℕ) → has p t.free ≡ (leb (ppn (round_up freemem by2pg - ulim)) p && ltb p t.npage)
  pub used : (p : ℕ) → p < ppn (round_up freemem by2pg - ulim) → t.refs p ≡ 1

iff→eq : (a b : Bool) → (a ≡ true → b ≡ true) → (b ≡ true → a ≡ true) → a ≡ b
iff→eq a b f g = ground arith

-- If the memory given away at start-up ends in kernel space below the last page, and there are
-- at most 2^20 pages, `page_init` returns, marks the pages below as used, and leaves a
-- well-formed free list of exactly the pages behind.
pub page_init-Initialised :
    (freemem : ℕ) (s : PageState)
    → ulim ≤ round_up freemem by2pg
    → ppn (round_up freemem by2pg - ulim) < s.npage
    → s.npage ≤ 2 ^ 20
    → Ensures (λ _ t. Initialised freemem s t) (λ e t. ⊥) (page_init freemem s)
unfolding page_init
page_init-Initialised freemem s kernel room small =
    let lo = ppn (round_up freemem by2pg - ulim) in
    let start : PageState = record s { free = []; refs = mark_used lo s.refs } in
    let l : Loop lo lo start = record {
      distinct = tt;
      range = λ p h. ground arith;
      unreferenced = λ p h. ground arith;
      complete = λ p a b. absurd (omega arith);
    } in
    let (r, same, np, ws) = mark_free-Loop (s.npage - lo) lo lo start (omega arith) l in
    let top : lo + (s.npage - lo) ≡ s.npage = omega arith in
    let test1 : ltb (round_up freemem by2pg) ulim ≡ false = ground arith in
    let test2 : ltb lo s.npage ≡ true = ground arith in
    rw (test1, test2)
      (returned (record {
        valid = record {
          small = rw np small;
          distinct = r.distinct;
          bounded = λ p h. omega (arith, r.range p h);
          unreferenced = r.unreferenced;
        };
        npage = np;
        words = ws;
        on_list = λ p.
            iff→eq _ _ (λ h. ground (arith, r.range p h))
              (λ h. r.complete p (ground arith) (ground arith));
        used = λ p h. same p h ∙ mark_used-eq lo s.refs p ∙ ground arith;
      }))
