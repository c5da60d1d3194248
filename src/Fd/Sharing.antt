-- ===== src/Fd/Sharing.antt =====
-- After `dup` of user/lib/fd.c the two descriptors share their pages.
use spring_os.Base.{
  ℕ, ◌+◌, ◌*◌, ◌/◌, ◌<◌, ◌≤◌, ◌≡◌, ◌≢◌, ◌⊎◌, refl, ap, ◌∙◌, inl, inr, true, false, none, some, List,
  leb, ltb, ◌==◌, if◌then◌else◌, arith, Bool-cases,
}
use spring_os.Base.Run.{
  Run, ok, err, inval, panic, when, ignoring, Ensures, returned, failed, Ensures-bind, Ensures-mono,
}
use spring_os.Mmu.{pdmap}
use spring_os.Fd.{
  Process, Dev, maxfd, filebase, fdtable, num2fd, fd2data, fd2num, index2data, is_mapped, fd_lookup,
  close,
}
use spring_os.Fd.Dup.{mem_map, dup_data, dup_pages, dup_or_undo, dup, shared_perm}
use spring_os.Fd.Copying.{copy_of, has_table, mem_map-none, dup_data-Copied}

-- The numbers of the pages of a descriptor and of its data.
abbrev pub fd_page : ℕ → ℕ
fd_page i = fdtable / 4096 + i

abbrev pub data_page : ℕ → ℕ
data_page i = filebase / 4096 + 1024 * i

num2fd-page : (i : ℕ) → i < maxfd → num2fd i ≡ fd_page i * 4096
unfolding num2fd
num2fd-page i lt = omega (arith, lt)

fd2data-page : (i : ℕ) → i < maxfd → fd2data (fd_page i * 4096) ≡ data_page i * 4096
unfolding fd2data fd2num index2data
fd2data-page i lt = omega (arith, lt)

is_mapped-some :
    (p : Process) (va : ℕ) (pte : ℕ × ℕ) → p.vpt (va / 4096) ≡ some pte → is_mapped p va ≡ true
unfolding is_mapped
is_mapped-some p va pte h = ground arith

is_mapped-none : (p : Process) (va : ℕ) → p.vpt (va / 4096) ≡ none → is_mapped p va ≡ false
unfolding is_mapped
is_mapped-none p va h = ground arith

module _ (p : Process) (i : ℕ) (lt : i < maxfd) where
  fd_lookup-page :
      (pte : ℕ × ℕ) → p.vpt (fd_page i) ≡ some pte → fd_lookup i p ≡ ok (fd_page i * 4096) p
  unfolding fd_lookup
  fd_lookup-page pte h =
      let small : leb maxfd i ≡ false = ground (arith, lt) in
      let at : fd_page i * 4096 / 4096 ≡ fd_page i = omega arith in
      rw (small, num2fd-page i lt, is_mapped-some p (fd_page i * 4096) pte (ap p.vpt at ∙ h)) refl

  fd_lookup-free : p.vpt (fd_page i) ≡ none → fd_lookup i p ≡ err inval p
  unfolding fd_lookup
  fd_lookup-free h =
      let small : leb maxfd i ≡ false = ground (arith, lt) in
      let at : fd_page i * 4096 / 4096 ≡ fd_page i = omega arith in
      rw (small, num2fd-page i lt, is_mapped-none p (fd_page i * 4096) (ap p.vpt at ∙ h)) refl

  close-free : (devtab : List Dev) → p.vpt (fd_page i) ≡ none → close devtab i p ≡ err inval p
  unfolding close
  close-free devtab h = rw (fd_lookup-free h) refl

-- Descriptor `new` shares the page of `old`, its data are copies, and no other page changes.
pub record Shared (old new : ℕ) (pte : ℕ × ℕ) (p q : Process) : Type 0 where
  pub descriptor : q.vpt (fd_page new) ≡ some (pte.0, shared_perm pte.1)
  pub contents :
      (k : ℕ)
      → k < 1024
      → q.vpt (data_page new + k) ≡ (
          if p.vpd (data_page old / 1024)
          then copy_of (p.vpt (data_page old + k)) (p.vpt (data_page new + k))
          else p.vpt (data_page new + k))
  pub others :
      (n : ℕ)
      → n ≢ fd_page new
      → (n < data_page new) ⊎ (data_page new + 1024 ≤ n)
      → q.vpt n ≡ p.vpt n
  pub same_fds : q.fds ≡ p.fds

-- The data are in place.
record DataDone (old new : ℕ) (p q : Process) : Type 0 where
  contents :
      (k : ℕ)
      → k < 1024
      → q.vpt (data_page new + k) ≡ (
          if p.vpd (data_page old / 1024)
          then copy_of (p.vpt (data_page old + k)) (p.vpt (data_page new + k))
          else p.vpt (data_page new + k))
  others : (n : ℕ) → (n < data_page new) ⊎ (data_page new + 1024 ≤ n) → q.vpt n ≡ p.vpt n
  same_fds : q.fds ≡ p.fds
  tables : (t : ℕ) → p.vpd t ≡ true → q.vpd t ≡ true

module _ (p : Process) (old new : ℕ) (pte : ℕ × ℕ) (lt : old < maxfd) (lt' : new < maxfd)
    (ne : old ≢ new) (open_fd : p.vpt (fd_page old) ≡ some pte)
    (table : p.vpd (fd_page new / 1024) ≡ true) (memory : 0 < p.memory) where
  -- The descriptor follows.
  descriptor_last :
      (q : Process)
      → DataDone old new p q
      → Ensures
          (λ _ r. Shared old new pte p r)
          (λ _ _. ⊥)
          (mem_map (fd_page old * 4096) (fd_page new * 4096) (shared_perm pte.1) q)
  descriptor_last q d =
      let from : fd_page old * 4096 / 4096 ≡ fd_page old = omega arith in
      let to : fd_page new * 4096 / 4096 ≡ fd_page new = omega arith in
      let place : fd_page new * 4096 / pdmap ≡ fd_page new / 1024 = omega arith in
      let here : q.vpt (fd_page old * 4096 / 4096) ≡ some pte =
        ap q.vpt from ∙ d.others (fd_page old) (inl (omega (arith, lt))) ∙ open_fd in
      let there : q.vpd (fd_page new * 4096 / pdmap) ≡ true =
        ap q.vpd place ∙ d.tables (fd_page new / 1024) table in
      let room : has_table q (fd_page new * 4096) ≡ true = rw there refl in
      rw
        (mem_map-none (fd_page old * 4096) (fd_page new * 4096) (shared_perm pte.1) q pte here room)
        (returned (record {
          descriptor = rw to (ground arith);
          contents = λ k h.
              let other : (data_page new + k == fd_page new) ≡ false = ground (arith, lt') in
              rw (to, other) (d.contents k h);
          others = λ n apart o.
              let other : (n == fd_page new) ≡ false = ground arith in
              rw (to, other) (d.others n o);
          same_fds = d.same_fds;
        }))

  pages_done :
      Ensures
        (λ _ q. DataDone old new p q)
        (λ _ _. ⊥)
        (when
          (p.vpd (data_page old * 4096 / pdmap))
          (dup_data 1024 (data_page old * 4096) (data_page new * 4096) 0)
          p)
  unfolding when
  pages_done =
      let place : data_page old * 4096 / pdmap ≡ data_page old / 1024 = omega arith in
      let far : (data_page old + 1024 ≤ data_page new) ⊎ (data_page new + 1024 ≤ data_page old) =
        elim (Bool-cases (ltb old new)) [
          | inl up ↦ let h : old < new = ground arith in inl (omega (arith, h))
          | inr down ↦ let h : new < old = ground (arith, ne) in inr (omega (arith, h))
        ] in
      rw place (elim (Bool-cases (p.vpd (data_page old / 1024))) [
        | inr absent ↦ rw absent (
            returned (record {
              contents = λ k h. rw absent refl;
              others = λ n o. refl;
              same_fds = refl;
              tables = λ t h. h;
            }))
        | inl there ↦ rw there (
            Ensures-mono
              (dup_data-Copied 1024 (data_page old * 4096) (data_page new * 4096) 0 (data_page old)
                (data_page new) p (omega arith) (omega arith) (omega arith) far (λ _. ground arith))
              (λ _ q c. record {
                contents = λ k h. rw there (c.copied k h);
                others = c.others;
                same_fds = c.same_fds;
                tables = c.tables;
              })
              (λ e q x. x))
      ])

  dup_pages-Shared :
      Ensures
        (λ _ r. Shared old new pte p r)
        (λ _ _. ⊥)
        (dup_pages
          (fd_page old * 4096)
          (fd_page new * 4096)
          (data_page old * 4096)
          (data_page new * 4096)
          p)
  unfolding dup_pages
  dup_pages-Shared = Ensures-bind pages_done (λ _ q d.
      let from : fd_page old * 4096 / 4096 ≡ fd_page old = omega arith in
      let here : q.vpt (fd_page old * 4096 / 4096) ≡ some pte =
        ap q.vpt from ∙ d.others (fd_page old) (inl (omega (arith, lt))) ∙ open_fd in
      rw here (descriptor_last q d))

  kept_answer :
      (x : Run Process (Unit {0}))
      → Ensures (λ _ r. Shared old new pte p r) (λ _ _. ⊥) x
      → Ensures
          (λ _ r. Shared old new pte p r)
          (λ _ _. ⊥)
          (dup_or_undo (fd_page new * 4096) (data_page new * 4096) x)
  unfolding dup_or_undo
  kept_answer panic x = elim x [ ]
  kept_answer (err e r) (failed x) = absurd x
  kept_answer (ok a r) (returned s) = returned s

  -- For two descriptors below 32 of which the first is open and the second has no page, where
  -- the table of the second is there and there is memory for a table: `dup` returns the second
  -- number; its descriptor is on the page of the first one, so the offset is shared, each of its
  -- 1024 data pages is the corresponding page of the first one, if that is there, with the flags
  -- for writing and sharing kept, and no other page changes.
  pub dup-Shared :
      (devtab : List Dev)
      → p.vpt (fd_page new) ≡ none
      → Ensures (λ n r. (n ≡ new) × Shared old new pte p r) (λ _ _. ⊥) (dup devtab old new p)
  unfolding dup ignoring
  dup-Shared devtab free =
      rw
        (
          fd_lookup-page p old lt pte open_fd,
          close-free p new lt' devtab free,
          num2fd-page new lt',
          fd2data-page old lt,
          fd2data-page new lt',
        )
        (Ensures-bind
          (kept_answer
            (dup_pages (fd_page old * 4096) (fd_page new * 4096) (data_page old * 4096)
              (data_page new * 4096) p)
            dup_pages-Shared)
          (λ _ r h. returned (refl, h)))
