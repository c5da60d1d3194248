-- ===== src/Teardown/Consistent.antt =====
-- `env_destroy` of kern/env.c keeps the environments and their lists consistent.
use spring_os.Base.{
  subst, ℕ, ◌≡◌, ◌≢◌, refl, sym, ap, ◌∙◌, inl, inr, true, Option, none, some, ◌∷◌, ◌==◌, has, erase,
  update, arith, Bool-cases,
}
use spring_os.Base.Run.{Safe, gives, panics, Safe-bind, get, modify, when, Safe-mono, ◌>>=◌, ◌>>◌}
use spring_os.Mmu.{pdx, utop}
use spring_os.Pmap.{PageState, page_decref, tlb_invalidate}
use spring_os.Kernel.{
  Env, Kernel, status_free, status_runnable, on_vm, set_env, get_env, sched_remove,
}
use spring_os.Asid.{asid_used, asid_unmark, asid_free}
use spring_os.Asid.Laws.{asid_used-unmark}
use spring_os.Env.Alloc.{Safe-on_vm}
use spring_os.Env.Consistent.{IsLive, IsConsistent, IsConsistent-beside}
use spring_os.Sched.{schedule}
use spring_os.Sched.Consistent.{schedule-IsConsistent}
use spring_os.Syscall.Status.{IsScheduled-sleep}
use spring_os.Teardown.{free_tables, free_insert_head, env_free, is_current, env_destroy}

-- The state after the end of environment `e`.
abbrev pub freed : Kernel → ℕ → PageState → Option ℕ → Kernel
freed k e t o = record k {
  vm = t;
  curenv = o;
  asid_bitmap = asid_unmark k.asid_bitmap (k.envs e).env_asid;
  envs = update k.envs e (record (k.envs e) { env_status = status_free });
  env_free_list = e ∷ k.env_free_list;
  env_sched_list = erase e k.env_sched_list;
}

freed-IsConsistent :
    (k : Kernel) (e : ℕ) (t : PageState) (o : Option ℕ)
    → IsConsistent k
    → IsLive k e
    → has e k.env_sched_list ≡ true
    → ((c : ℕ) → o ≡ some c → IsLive k c × (c ≢ e))
    → IsConsistent (freed k e t o)
freed-IsConsistent k e t o s old inside current =
    let run : (k.envs e).env_status ≡ status_runnable = ground (arith, s.scheduled.exact e) in
    let w =
      IsScheduled-sleep s.scheduled e (record (k.envs e) { env_status = status_free }) run
        (λ h. omega (arith, h)) in
    let live : (y : ℕ) → IsLive (freed k e t o) y → (IsLive k y) × (y ≢ e) =
      λ y h. (λ g. ground (arith, h, g), λ g. ground (arith, h, g)) in
    let same : (y : ℕ) → y ≢ e → (freed k e t o).envs y ≡ k.envs y = λ y ne. ground arith in
    record {
      scheduled = record { distinct = w.1.distinct; exact = w.1.exact };
      free_distinct = (ground (arith, s.free_exact e, old), s.free_distinct);
      free_exact = λ y. ground (arith, s.free_exact y, (s.index e old).0);
      current_live = λ c h g. (let w' = current c h in ground (arith, w'.0, w'.1, g));
      index = λ y h. (let w' = live y h in rw (same y w'.1) (s.index y w'.0));
      asid = λ y h.
          (let w' = live y h in
            let apart : (k.envs e).env_asid ≢ (k.envs y).env_asid =
              λ g. w'.1 (sym (s.asid_own e y old w'.0 g)) in
            let used : asid_used k.asid_bitmap (k.envs y).env_asid ≡ true = s.asid y w'.0 in
            rw (same y w'.1, asid_used-unmark k.asid_bitmap (k.envs e).env_asid (k.envs y).env_asid)
              (ground (arith, apart, used)));
      asid_own = λ y z h g eq.
          (let a = live y h in
            let b = live z g in
            s.asid_own y z a.0 b.0 (
              sym (ap (λ (x : Env). x.env_asid) (same y a.1))
              ∙ eq
              ∙ ap (λ (x : Env). x.env_asid) (same z b.1)));
    }

-- What `env_free` leaves.
record Freed (k : Kernel) (e : ℕ) (l : Kernel) : Type 0 where
  memory : PageState
  inside : has e k.env_sched_list ≡ true
  same : l ≡ freed k e memory k.curenv

unlist-Freed :
    (k : Kernel) (e : ℕ) (t : PageState)
    → Safe
        (λ _ l. Freed k e l)
        (λ l. ⊥)
        ((do free_insert_head e; sched_remove e)
          (record k {
            vm = t;
            asid_bitmap = asid_unmark k.asid_bitmap (k.envs e).env_asid;
            envs = update k.envs e (record (k.envs e) { env_status = status_free });
          }))
unfolding free_insert_head sched_remove
unlist-Freed k e t = elim (Bool-cases (has e k.env_free_list)) [
  | inl there ↦ rw there panics
  | inr absent ↦ elim (Bool-cases (has e k.env_sched_list)) [
    | inl inside ↦ rw (absent, inside) (gives (record { memory = t; inside = inside; same = refl }))
    | inr outside ↦ rw (absent, outside) panics
  ]
]

env_free-Freed :
    (k : Kernel) (e : ℕ)
    → Safe (λ _ l. Freed k e l) (λ l. l ≡ record k { vm = l.vm }) (env_free e k)
unfolding env_free get_env asid_free set_env tlb_invalidate free_insert_head sched_remove on_vm
env_free-Freed k e =
    Safe-on_vm k _ (free_tables (pdx utop) (k.envs e).env_pgdir (k.envs e).env_asid)
      (λ _ t.
        Safe-on_vm (record k { vm = t }) _ (page_decref (k.envs e).env_pgdir)
          (λ _ u. Safe-mono (unlist-Freed k e _) (λ _ l f. f) (λ l no. absurd no)) (λ u. refl))
      (λ t. refl)

module _ (k : Kernel) (e : ℕ) (s : IsConsistent k) (old : IsLive k e) where
  after_end :
      (t : PageState) (o : Option ℕ)
      → has e k.env_sched_list ≡ true
      → o ≡ k.curenv
      → Safe
          (λ _ l. IsConsistent l)
          IsConsistent
          (when
            (is_current o e)
            (do modify λ k. record k { curenv = none }; schedule true)
            (freed k e t k.curenv))
  unfolding when is_current
  after_end t none inside same =
      gives
        (freed-IsConsistent k e t k.curenv s old inside (λ c h. absurd (ground (arith, same, h))))
  after_end t (some c) inside same = elim (Bool-cases (c == e)) [
    | inl itself ↦ rw itself (
        schedule-IsConsistent (freed k e t none) true
          (freed-IsConsistent k e t none s old inside (λ c h. absurd cc)))
    | inr other ↦ rw other (
        gives (
          freed-IsConsistent k e t k.curenv s old inside
            (λ d h. (s.current_live d h, λ eq. ground (arith, same, h, eq, other)))))
  ]

  pub env_destroy-IsConsistent : Safe (λ _ l. IsConsistent l) IsConsistent (env_destroy e k)
  unfolding env_destroy
  env_destroy-IsConsistent =
      Safe-bind
        (Safe-mono (env_free-Freed k e) (λ _ l f. f)
          (λ l same. subst IsConsistent (sym same) (IsConsistent-beside l.vm k.kstack_tf s)))
        (λ _ l f.
          subst
            (λ r.
              Safe (λ _ l. IsConsistent l) IsConsistent
                ((do
                  k ← get
                  when (is_current k.curenv e)
                      (do modify λ k. record k { curenv = none }; schedule true))
                  r))
            (sym f.same) (after_end f.memory k.curenv f.inside refl))
