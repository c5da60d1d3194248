-- ===== src/Fd/Copying.antt =====
-- The loop of `dup` in user/lib/fd.c that maps the data pages of a descriptor.
use spring_os.Base.{
  ℕ, zero, suc, ◌+◌, ◌-◌, ◌*◌, ◌/◌, ◌%◌, ◌<◌, ◌≤◌, ◌≡◌, ◌≢◌, ◌⊎◌, refl, ap, sym, ◌∙◌, inl, inr,
  Bool, true, ◌||◌, Option, none, some, ltb, if◌then◌else◌, update, arith,
}
use spring_os.Base.Run.{ok, Ensures, returned, Ensures-bind, Ensures-mono}
use spring_os.Mmu.{pdmap}
use spring_os.Fd.{Process}
use spring_os.Fd.Dup.{mem_map, dup_page, dup_data, shared_perm}

-- What a page of the new descriptor becomes.
abbrev pub copy_of : Option (ℕ × ℕ) → Option (ℕ × ℕ) → Option (ℕ × ℕ)
copy_of none old = old
copy_of (some pte) old = some (pte.0, shared_perm pte.1)

-- There is a table for the pages behind `nva`, or memory for one.
abbrev pub has_table : Process → ℕ → Bool
has_table p nva = p.vpd (nva / pdmap) || ltb 0 p.memory

pub mem_map-none :
    (src dst perm : ℕ) (p : Process) (pte : ℕ × ℕ)
    → p.vpt (src / 4096) ≡ some pte
    → has_table p dst ≡ true
    → mem_map src dst perm p
      ≡ ok tt (record p {
        vpd = update p.vpd (dst / pdmap) true;
        vpt = update p.vpt (dst / 4096) (some (pte.0, perm));
        memory = if p.vpd (dst / pdmap) then p.memory else p.memory - 1;
      })
unfolding mem_map
mem_map-none src dst perm p pte h t = ground (arith, h)

-- The pages from number `new` on are copies of those from `old` on, and no other page changes.
pub record Copied (pages old new : ℕ) (p q : Process) : Type 0 where
  pub copied : (k : ℕ) → k < pages → q.vpt (new + k) ≡ copy_of (p.vpt (old + k)) (p.vpt (new + k))
  pub others : (n : ℕ) → (n < new) ⊎ (new + pages ≤ n) → q.vpt n ≡ p.vpt n
  pub same_fds : q.fds ≡ p.fds
  pub tables : (t : ℕ) → p.vpd t ≡ true → q.vpd t ≡ true

-- One page is copied.
record CopiedPage (old new : ℕ) (p q : Process) : Type 0 where
  page : q.vpt new ≡ copy_of (p.vpt old) (p.vpt new)
  others : (n : ℕ) → n ≢ new → q.vpt n ≡ p.vpt n
  same_fds : q.fds ≡ p.fds
  tables : (t : ℕ) → p.vpd t ≡ true → q.vpd t ≡ true
  table : has_table q (new * 4096) ≡ true

Copied-suc :
    (pages old new : ℕ) (p q r : Process)
    → (old + suc pages ≤ new) ⊎ (new + suc pages ≤ old)
    → CopiedPage old new p q
    → Copied pages (suc old) (suc new) q r
    → Copied (suc pages) old new p r
Copied-suc pages old new p q r apart one rest = record {
  copied = λ k lt. go k lt;
  others = λ n o. rest.others n (outer n o) ∙ one.others n (apart_from n o);
  same_fds = rest.same_fds ∙ one.same_fds;
  tables = λ t h. rest.tables t (one.tables t h);
}
  where
    go : (k : ℕ) → k < suc pages → r.vpt (new + k) ≡ copy_of (p.vpt (old + k)) (p.vpt (new + k))
    go zero lt =
        let z : new + 0 ≡ new = omega arith in
        let y : old + 0 ≡ old = omega arith in
        rw (z, y) (rest.others new (inl (omega arith)) ∙ one.page)
    go (suc k) lt =
        let z : new + suc k ≡ suc new + k = omega arith in
        let y : old + suc k ≡ suc old + k = omega arith in
        let from : q.vpt (suc old + k) ≡ p.vpt (suc old + k) =
          one.others (suc old + k) (elim apart [
            | inl le ↦ λ e. omega (arith, le, lt, e)
            | inr le ↦ λ e. omega (arith, le, lt, e)
          ]) in
        let to : q.vpt (suc new + k) ≡ p.vpt (suc new + k) =
          one.others (suc new + k) (λ e. omega (arith, e)) in
        rw (z, y, sym from, sym to) (rest.copied k (omega (arith, lt)))

    outer : (n : ℕ) → (n < new) ⊎ (new + suc pages ≤ n) → (n < suc new) ⊎ (suc new + pages ≤ n)
    outer n (inl lt) = inl (omega (arith, lt))
    outer n (inr le) = inr (omega (arith, le))

    apart_from : (n : ℕ) → (n < new) ⊎ (new + suc pages ≤ n) → n ≢ new
    apart_from n (inl lt) e = omega (arith, lt, e)
    apart_from n (inr le) e = omega (arith, le, e)

-- A page of the loop of `dup`, if there is a page to copy.
page_step :
    (old new : ℕ) (p : Process) (o : Option (ℕ × ℕ))
    → p.vpt old ≡ o
    → has_table p (new * 4096) ≡ true
    → Ensures (λ _ q. CopiedPage old new p q) (λ _ _. ⊥) (dup_page o (old * 4096) (new * 4096) p)
unfolding dup_page
page_step old new p none h t = returned (record {
  page = rw h refl;
  others = λ n ne. refl;
  same_fds = refl;
  tables = λ t h. h;
  table = t;
})
page_step old new p (some pte) h t =
    let from : old * 4096 / 4096 ≡ old = omega arith in
    let to : new * 4096 / 4096 ≡ new = omega arith in
    let here : p.vpt (old * 4096 / 4096) ≡ some pte = ap p.vpt from ∙ h in
    rw (mem_map-none (old * 4096) (new * 4096) (shared_perm pte.1) p pte here t) (
      returned (record {
        page = rw (h, to) (ground arith);
        others = λ n ne. rw to (ground arith);
        same_fds = refl;
        tables = λ t h. ground arith;
        table = ground arith;
      }))

has_table-next :
    (p : Process) (new : ℕ)
    → new % 1024 + 2 ≤ 1024
    → has_table p (new * 4096) ≡ true
    → has_table p (suc new * 4096) ≡ true
has_table-next p new le t =
    let same : suc new * 4096 / pdmap ≡ new * 4096 / pdmap = omega (arith, le) in rw same t

pub dup_data-Copied :
    (pages ova nva i : ℕ) (old new : ℕ) (p : Process)
    → ova + i ≡ old * 4096
    → nva + i ≡ new * 4096
    → new % 1024 + pages ≤ 1024
    → (old + pages ≤ new) ⊎ (new + pages ≤ old)
    → (pages ≢ 0 → has_table p (new * 4096) ≡ true)
    → Ensures (λ _ q. Copied pages old new p q) (λ _ _. ⊥) (dup_data pages ova nva i p)
unfolding dup_data
dup_data-Copied zero ova nva i old new p a b le apart t = returned (record {
  copied = λ k lt. absurd (omega (arith, lt));
  others = λ n o. refl;
  same_fds = refl;
  tables = λ t h. h;
})
dup_data-Copied (suc pages) ova nva i old new p a b le apart t =
    let from : (ova + i) / 4096 ≡ old = omega (arith, a) in
    rw (from, a, b)
      (Ensures-bind (page_step old new p (p.vpt old) refl (t (λ z. omega (arith, z)))) (λ _ q one.
        Ensures-mono
          (dup_data-Copied pages ova nva (i + 4096) (suc old) (suc new) q (omega (arith, a))
            (omega (arith, b)) (omega (arith, le))
            (elim apart [ inl h ↦ inl (omega (arith, h)) | inr h ↦ inr (omega (arith, h)) ])
            (λ more. has_table-next q new (omega (arith, le, more)) one.table))
          (λ _ r rest. Copied-suc pages old new p q r apart one rest) (λ e r x. x)))
