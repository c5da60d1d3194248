-- ===== src/Pmap/FreeList.antt =====
-- The free list of kern/pmap.c: `page_alloc`, `page_free` and `page_decref` keep it well formed.
use spring_os.Base.{
  ℕ, ◌-◌, ◌^◌, ◌≤◌, ◌<◌, ◌≡◌, ◌≢◌, refl, inl, inr, true, false, List, [], ◌∷◌, arith, ltb, ◌==◌,
  if◌then◌else◌, has, update, Distinct, Bool-cases,
}
use spring_os.Base.Run.{no_mem, ok, Ensures, returned, failed}
use spring_os.Pmap.{PageState, take_page, page_alloc, page_free, page_decref}

-- The list names no page twice, and only existing pages without references; page numbers fit
-- in the 20 bits of a table entry.
pub record IsValid (s : PageState) : Type 0 where
  pub small : s.npage ≤ 2 ^ 20
  pub distinct : Distinct s.free
  pub bounded : (p : ℕ) → has p s.free ≡ true → p < s.npage
  pub unreferenced : (p : ℕ) → has p s.free ≡ true → s.refs p ≡ 0

-- What `page_alloc` does when it gives page `p`.
pub record Allocated (s : PageState) (p : ℕ) (t : PageState) : Type 0 where
  pub head : s.free ≡ p ∷ t.free
  pub exists : p < s.npage
  pub npage : t.npage ≡ s.npage
  pub refs : t.refs ≡ s.refs
  pub flushed : t.flushed ≡ s.flushed
  pub zeroed : (i : ℕ) → t.words p i ≡ 0
  pub others : (q : ℕ) → q ≢ p → t.words q ≡ s.words q

take_page-Allocated :
    (free : List ℕ) (s : PageState)
    → s.free ≡ free
    → IsValid s
    → Ensures
        (λ p t. Allocated s p t × IsValid t × (t.refs p ≡ 0) × (has p t.free ≡ false))
        (λ e t. (e ≡ no_mem) × (s.free ≡ []) × (t ≡ s))
        (take_page free s)
unfolding take_page
take_page-Allocated [] s e v = failed (refl, e, refl)
take_page-Allocated (p ∷ rest) s e v =
    let inside : has p s.free ≡ true = rw e (ground arith) in
    let bound : p < s.npage = v.bounded p inside in
    let d : Distinct (p ∷ rest) = rw e at v.distinct in
    let test : ltb p s.npage ≡ true = ground arith in
    rw test (
      returned (
        record {
          head = e;
          exists = bound;
          npage = refl;
          refs = refl;
          flushed = refl;
          zeroed = λ i. ground arith;
          others = λ q ne. ground arith;
        },
        record {
          small = v.small;
          distinct = d.1;
          bounded = λ q h. v.bounded q (rw e (ground arith));
          unreferenced = λ q h. v.unreferenced q (rw e (ground arith));
        },
        v.unreferenced p inside,
        d.0,
      ))

-- From a well-formed free list `page_alloc` takes the head, an existing page without references
-- that is not on the list afterwards, fills it with zeros and changes nothing else; it fails
-- with -E_NO_MEM only on the empty list, and changes nothing then.
pub page_alloc-Allocated :
    {s : PageState}
    → IsValid s
    → Ensures
        (λ p t. Allocated s p t × IsValid t × (t.refs p ≡ 0) × (has p t.free ≡ false))
        (λ e t. (e ≡ no_mem) × (s.free ≡ []) × (t ≡ s))
        (page_alloc s)
unfolding page_alloc
page_alloc-Allocated {s} v = take_page-Allocated s.free s refl v

-- Changes that keep the list well formed.
pub IsValid-inc_ref :
    {s : PageState} (pp n : ℕ)
    → IsValid s
    → has pp s.free ≡ false
    → IsValid (record s { refs = update s.refs pp n })
IsValid-inc_ref {s} pp n v out = record {
  small = v.small;
  distinct = v.distinct;
  bounded = v.bounded;
  unreferenced = λ p h. elim (Bool-cases (p == pp)) [
    | inl same ↦ absurd (ground arith)
    | inr other ↦ rw other (v.unreferenced p h)
  ];
}

pub IsValid-words :
    {s : PageState} (w : ℕ → ℕ → ℕ) (f : List ℕ)
    → IsValid s
    → IsValid (record s { words = w; flushed = f })
IsValid-words w f v = record {
  small = v.small;
  distinct = v.distinct;
  bounded = v.bounded;
  unreferenced = v.unreferenced;
}

pub page_free-lem :
    {s : PageState} (pp : ℕ)
    → IsValid s
    → pp < s.npage
    → s.refs pp ≡ 0
    → has pp s.free ≡ false
    → (page_free pp s ≡ ok tt (record s { free = pp ∷ s.free }))
      × IsValid (record s { free = pp ∷ s.free })
unfolding page_free
page_free-lem {s} pp v bound zero_ref out = (
  ground arith,
  record {
    small = v.small;
    distinct = (out, v.distinct);
    bounded = λ p h. elim (Bool-cases (p == pp)) [
      | inl same ↦ ground arith
      | inr other ↦ v.bounded p (rw other at h)
    ];
    unreferenced = λ p h. elim (Bool-cases (p == pp)) [
      | inl same ↦ ground arith
      | inr other ↦ v.unreferenced p (rw other at h)
    ];
  },
)

-- The state after a reference to `pp` is dropped.
abbrev pub dropped : PageState → ℕ → PageState
dropped s pp = record s {
  refs = update s.refs pp (s.refs pp - 1);
  free = if s.refs pp - 1 == 0 then pp ∷ s.free else s.free;
}

pub not_free_of_ref : {s : PageState} (pp : ℕ) → IsValid s → 0 < s.refs pp → has pp s.free ≡ false
not_free_of_ref {s} pp v pos = elim (Bool-cases (has pp s.free)) [
  | inl inside ↦ absurd (omega (arith, v.unreferenced pp inside))
  | inr out ↦ out
]

-- For an existing page with references and a well-formed free list, `page_decref` takes one
-- reference away, puts the page on the list exactly if it was the last, and keeps the list well
-- formed.
pub page_decref-dropped :
    {s : PageState} (pp : ℕ)
    → IsValid s
    → pp < s.npage
    → 0 < s.refs pp
    → (page_decref pp s ≡ ok tt (dropped s pp)) × IsValid (dropped s pp)
unfolding page_decref
page_decref-dropped {s} pp v bound pos =
    let out : has pp s.free ≡ false = not_free_of_ref pp v pos in
    let u : IsValid (record s { refs = update s.refs pp (s.refs pp - 1) }) =
      IsValid-inc_ref pp (s.refs pp - 1) v out in
    elim (Bool-cases (s.refs pp - 1 == 0)) [
      | inl last ↦
          let f = page_free-lem pp u bound (ground arith) out in
          let test : ltb 0 (s.refs pp) ≡ true = ground arith in rw (test, last) f
      | inr more ↦ let test : ltb 0 (s.refs pp) ≡ true = ground arith in rw (test, more) (refl, u)
    ]
