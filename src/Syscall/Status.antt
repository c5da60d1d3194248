-- ===== src/Syscall/Status.antt =====
-- Waking and blocking an environment: how the calls of kern/syscall_all.c keep the list of runnable
-- environments in step with `env_status`.
use spring_os.Base.{
  ℕ, ◌≡◌, ◌≢◌, refl, sym, ◌∙◌, inl, inr, ◌⊎◌, true, false, [], ◌∷◌, ◌++◌, has, erase, update, arith,
  has-append, has-erase_ne, has-erase_self, Distinct-erase, Distinct-snoc,
}
use spring_os.Base.Run.{ok, panic, Ensures, returned}
use spring_os.Kernel.{
  Env, Kernel, status_runnable, status_not_runnable, set_env, sched_insert_tail, sched_remove,
}
use spring_os.Env.{envid2env}
use spring_os.Sched.Slices.{IsScheduled}
use spring_os.Syscall.{sys_set_env_status}

module _ {k : Kernel} (s : IsScheduled k) (e : ℕ) (x : Env) where
  -- An environment that was not runnable becomes runnable, and joins the tail.
  pub IsScheduled-wake :
      (k.envs e).env_status ≢ status_runnable
      → x.env_status ≡ status_runnable
      → (has e k.env_sched_list ≡ false)
        × IsScheduled
            (record k { envs = update k.envs e x; env_sched_list = k.env_sched_list ++ e ∷ [] })
  IsScheduled-wake asleep awake =
      let out : has e k.env_sched_list ≡ false = ground (arith, s.exact e) in
      (
        out,
        record {
          distinct = Distinct-snoc e _ s.distinct out;
          exact = λ y. ground (arith, has-append y k.env_sched_list (e ∷ []), s.exact y);
        },
      )

  -- A runnable environment stops being runnable, and leaves the list.
  pub IsScheduled-sleep :
      (k.envs e).env_status ≡ status_runnable
      → x.env_status ≢ status_runnable
      → (has e k.env_sched_list ≡ true)
        × IsScheduled
            (record k { envs = update k.envs e x; env_sched_list = erase e k.env_sched_list })
  IsScheduled-sleep awake asleep =
      let inside : has e k.env_sched_list ≡ true = ground (arith, s.exact e) in
      (
        inside,
        record {
          distinct = Distinct-erase e _ s.distinct;
          exact = λ y. ground (
            arith,
            has-erase_ne y e k.env_sched_list,
            has-erase_self e k.env_sched_list s.distinct,
            s.exact y,
          );
        },
      )

-- The outcome of `sys_set_env_status` on environment `e`.
pub record StatusSet (k : Kernel) (e status : ℕ) (l : Kernel) : Type 0 where
  pub is_set : (l.envs e).env_status ≡ status
  pub others : (y : ℕ) → y ≢ e → l.envs y ≡ k.envs y
  pub scheduled : IsScheduled l
  pub same_vm : l.vm ≡ k.vm

module _ {k : Kernel} (envid : ℕ) {e status : ℕ} (s : IsScheduled k)
    (named : envid2env envid true k ≡ ok e k) where
  -- A change between runnable and not runnable, of an environment that the caller may name, sets
  -- the status, leaves every other environment and memory alone, and keeps the list holding
  -- exactly the runnable environments.
  pub sys_set_env_status-StatusSet :
      (status ≡ status_runnable) ⊎ (status ≡ status_not_runnable)
      → ((k.envs e).env_status ≡ status_runnable) ⊎ ((k.envs e).env_status ≡ status_not_runnable)
      → (k.envs e).env_status ≢ status
      → Ensures (λ _ l. StatusSet k e status l) (λ f l. ⊥) (sys_set_env_status envid status k)
  unfolding sys_set_env_status set_env sched_insert_tail sched_remove
  sys_set_env_status-StatusSet (inl up) was change =
      let x : Env = record (k.envs e) { env_status = status_runnable } in
      let w = IsScheduled-wake s e x (λ h. change (h ∙ sym up)) refl in
      rw (up, named, w.0)
        (returned (record {
          is_set = ground arith;
          others = λ y h. ground arith;
          scheduled = w.1;
          same_vm = refl;
        }))
  sys_set_env_status-StatusSet (inr down) was change =
      let x : Env = record (k.envs e) { env_status = status_not_runnable } in
      let was_up : (k.envs e).env_status ≡ status_runnable = elim was [
        | inl h ↦ h
        | inr h ↦ absurd (change (h ∙ sym down))
      ] in
      let w = IsScheduled-sleep s e x was_up (λ h. ground arith) in
      rw (down, named, w.0)
        (returned (record {
          is_set = ground arith;
          others = λ y h. ground arith;
          scheduled = w.1;
          same_vm = refl;
        }))

  -- Setting the status that the environment already has is a fault: it would insert the
  -- environment into the list a second time, or remove it though it is not there.
  pub sys_set_env_status_same :
      (status ≡ status_runnable) ⊎ (status ≡ status_not_runnable)
      → (k.envs e).env_status ≡ status
      → sys_set_env_status envid status k ≡ panic
  unfolding sys_set_env_status set_env sched_insert_tail sched_remove
  sys_set_env_status_same (inl up) same =
      let inside : has e k.env_sched_list ≡ true = ground (arith, s.exact e) in
      rw (up, named, inside)
  sys_set_env_status_same (inr down) same =
      let outside : has e k.env_sched_list ≡ false = ground (arith, s.exact e) in
      rw (down, named, outside)
