-- ===== src/Env/Adding.antt =====
-- A new environment joins the ones there are: the invariant after `env_alloc` (kern/env.c), when its
-- status is set and the scheduling list is brought up to date.
use spring_os.Base.{
  List, ℕ, ◌≡◌, ◌≢◌, refl, sym, ap, ◌∙◌, subst, inl, inr, true, false, ◌||◌, ◌∷◌, ◌==◌, has, update,
  arith, Bool-cases, ◌<◌, Distinct,
}
use spring_os.Kernel.{Env, Kernel, status_free}
use spring_os.Asid.{asid_used}
use spring_os.Env.{nenv, envx}
use spring_os.Env.Alloc.{Fresh}
use spring_os.Env.Consistent.{IsLive, IsConsistent}
use spring_os.Sched.Slices.{IsScheduled}

module _ {k l : Kernel} {e : ℕ} (s : IsConsistent k) (f : Fresh k e l) where
  free_list_had : (y : ℕ) → has y k.env_free_list ≡ ((y == e) || has y l.env_free_list)
  free_list_had y = ap (has y) f.head

  pub was_free : ((k.envs e).env_status ≡ status_free) × (e < nenv)
  was_free = (
    ground (arith, free_list_had e, s.free_exact e),
    ground (arith, free_list_had e, s.free_exact e),
  )

  off_list : has e l.env_free_list ≡ false
  off_list = let d : Distinct (e ∷ l.env_free_list) = subst Distinct f.head s.free_distinct in d.0

  pub by_env : (P : ℕ → Type 0) → P e → ((y : ℕ) → y ≢ e → P y) → (y : ℕ) → P y
  by_env P own others y = elim (Bool-cases (y == e)) [
    | inl h ↦ subst P (ground (arith, h)) own
    | inr h ↦ others y (λ g. ground (arith, h, g))
  ]

  module _ (x : Env) (q : List ℕ) (new : x.env_status ≢ status_free)
      (id : x.env_id ≡ (l.envs e).env_id) (asid : x.env_asid ≡ (l.envs e).env_asid)
      (scheduled : IsScheduled (record l { envs = update l.envs e x; env_sched_list = q })) where
    abbrev added : Kernel
    added = record l { envs = update l.envs e x; env_sched_list = q }

    here : added.envs e ≡ x
    here = ground arith

    same : (y : ℕ) → y ≢ e → added.envs y ≡ k.envs y
    same y ne = ground (arith, ne, f.kept y ne)

    was-IsLive : (y : ℕ) → y ≢ e → IsLive added y → IsLive k y
    was-IsLive y ne h g = h (ap (λ (z : Env). z.env_status) (same y ne) ∙ g)

    asid_taken : (y : ℕ) → IsLive added y → asid_used l.asid_bitmap (added.envs y).env_asid ≡ true
    asid_taken =
        by_env _ (λ h. ground (arith, asid, f.asids (l.envs e).env_asid))
          (λ y ne h.
            rw (same y ne)
              (ground (arith, f.asids (k.envs y).env_asid, s.asid y (was-IsLive y ne h))))

    asid_new : (y : ℕ) → y ≢ e → IsLive added y → (added.envs y).env_asid ≢ (added.envs e).env_asid
    asid_new y ne h eq =
        let used : asid_used k.asid_bitmap (k.envs y).env_asid ≡ true =
          s.asid y (was-IsLive y ne h) in
        let clash : (k.envs y).env_asid ≡ (l.envs e).env_asid =
          sym (ap (λ (z : Env). z.env_asid) (same y ne))
          ∙ eq
          ∙ ap (λ (z : Env). z.env_asid) here
          ∙ asid in
        let free : asid_used k.asid_bitmap (k.envs y).env_asid ≡ false =
          ap (asid_used k.asid_bitmap) clash ∙ f.asid_free in
        ground (arith, used, free)

    pub added-IsConsistent : IsConsistent added
    added-IsConsistent = record {
      scheduled = scheduled;
      free_distinct =
          (let d : Distinct (e ∷ l.env_free_list) = subst Distinct f.head s.free_distinct in d.1);
      free_exact =
          by_env _ (ground (arith, off_list, new))
            (λ y ne. rw (same y ne) (ground (arith, free_list_had y, s.free_exact y, ne)));
      current_live = λ c h g.
          (let live = s.current_live c (sym f.curenv ∙ h) in
            by_env (λ c. IsLive k c → (added.envs c).env_status ≡ status_free → ⊥)
              (λ old _. old was_free.0)
              (λ y ne old now. old (sym (ap (λ (z : Env). z.env_status) (same y ne)) ∙ now)) c live
              g);
      index =
          by_env _
            (λ h. (was_free.1, ap envx (ap (λ (z : Env). z.env_id) here ∙ id) ∙ f.id was_free.1))
            (λ y ne h. rw (same y ne) (s.index y (was-IsLive y ne h)));
      asid = asid_taken;
      asid_own = λ y.
          by_env
            (λ z.
              IsLive added y
              → IsLive added z
              → (added.envs y).env_asid ≡ (added.envs z).env_asid
              → y ≡ z)
            (λ h g eq.
              by_env
                (λ y. IsLive added y → (added.envs y).env_asid ≡ (added.envs e).env_asid → y ≡ e)
                (λ _ _. refl) (λ y ne h eq. absurd (asid_new y ne h eq)) y h eq)
            (λ z ne.
              by_env
                (λ y.
                  IsLive added y
                  → IsLive added z
                  → (added.envs y).env_asid ≡ (added.envs z).env_asid
                  → y ≡ z)
                (λ h g eq. absurd (asid_new z ne g (sym eq)))
                (λ y ne' h g eq. s.asid_own y z (was-IsLive y ne' h) (was-IsLive z ne g) (
                  sym (ap (λ (z : Env). z.env_asid) (same y ne'))
                  ∙ eq
                  ∙ ap (λ (z : Env). z.env_asid) (same z ne)))
                y);
    }
