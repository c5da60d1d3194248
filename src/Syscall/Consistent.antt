-- ===== src/Syscall/Consistent.antt =====
-- The system calls of kern/syscall_all.c keep the environments and their lists consistent, whether
-- they return a value or an error.
use spring_os.Base.{
  ℕ, ◌≡◌, refl, sym, subst, inl, inr, Bool, not, ◌||◌, none, some, ◌==◌, arith, Bool-cases,
  Option-cases,
}
use spring_os.Base.Run.{
  Run, Cmd, ok, err, and_then, put_back, Safe, gives, fails, panics, Safe-bind, Safe-mono,
  Ensures-Safe,
}
use spring_os.Pmap.{PageState}
use spring_os.Kernel.{Env, Kernel, status_free, on_vm, get_env, current, current-some}
use spring_os.Env.{envid2env, envx}
use spring_os.Env.Ids.{Named, envid2env-Named}
use spring_os.Env.Alloc.{Safe-on_vm}
use spring_os.Env.Consistent.{IsLive, IsConsistent, IsConsistent-beside}

-- The command returns with a consistent state, or panics.
abbrev pub Keeps : {A : Type 0} → Run Kernel A → Type 0
Keeps r = Safe (λ _ l. IsConsistent l) IsConsistent r

current-none : (k : Kernel) → k.curenv ≡ none → current k ≡ Run.panic
unfolding current
current-none k e = ground arith

module _ (k : Kernel) (s : IsConsistent k) (envid : ℕ) (checkperm : Bool) where
  Named-IsLive : (c e : ℕ) → k.curenv ≡ some c → Named k c envid checkperm e → IsLive k e
  Named-IsLive c e cur n = elim (Bool-cases (envid == 0)) [
    | inl zero_id ↦
        subst (IsLive k) (sym (n.zero_is_caller (ground (arith, zero_id)))) (s.current_live c cur)
    | inr other ↦ n.live (λ h. ground (arith, other, h))
  ]

  envid2env-alone :
      k.curenv ≡ none
      → Safe (λ e l. IsLive k e × (l ≡ k)) (λ l. l ≡ k) (envid2env envid checkperm k)
  unfolding envid2env get_env
  envid2env-alone alone =
      let x : Env = k.envs (envx envid) in
      elim (Bool-cases (envid == 0)) [
        | inl zero_id ↦ rw (zero_id, current-none k alone) panics
        | inr other ↦ elim (Bool-cases ((x.env_status == status_free) || not (x.env_id == envid))) [
          | inl bad ↦ rw (other, bad) (fails refl)
          | inr good ↦ elim (Bool-cases checkperm) [
            | inl perm ↦ rw (other, good, perm, current-none k alone) panics
            | inr free ↦ rw (other, good, free) (gives (λ h. ground (arith, good, h), refl))
          ]
        ]
      ]

  pub envid2env-IsLive :
      Safe (λ e l. IsLive k e × (l ≡ k)) (λ l. l ≡ k) (envid2env envid checkperm k)
  envid2env-IsLive = elim (Option-cases k.curenv) [
    | inl absent ↦ envid2env-alone absent
    | inr (c, cur) ↦
        Safe-mono
          (Ensures-Safe (envid2env-Named k c envid checkperm cur)
            (λ e l (bad, same, refused). same))
          (λ e l (n, same). (Named-IsLive c e cur n, same)) (λ l h. h)
  ]

module _ {B : Type 0} (k : Kernel) (s : IsConsistent k) (next : ℕ → Cmd Kernel B) where
  -- After the current environment is looked up.
  pub Keeps-current :
      ((c : ℕ) → k.curenv ≡ some c → IsLive k c → Keeps (next c k))
      → Keeps (and_then (current k) next)
  Keeps-current rest = elim (Option-cases k.curenv) [
    | inl absent ↦ rw (current-none k absent) panics
    | inr (c, cur) ↦ rw (current-some k c cur) (rest c cur (s.current_live c cur))
  ]

  -- After an identifier is looked up: the environment that it names is live.
  pub Keeps-envid2env :
      (envid : ℕ) (checkperm : Bool)
      → ((e : ℕ) → IsLive k e → Keeps (next e k))
      → Keeps (and_then (envid2env envid checkperm k) next)
  Keeps-envid2env envid checkperm rest =
      Safe-bind
        (Safe-mono (envid2env-IsLive k s envid checkperm) (λ e l h. h)
          (λ l same. subst IsConsistent (sym same) s))
        (λ e l (live, same). subst (λ r. Keeps (next e r)) (sym same) (rest e live))

module _ {A : Type 0} (k : Kernel) (s : IsConsistent k) where
  Keeps-put_back : (r : Run PageState A) → Keeps (put_back (λ t. record k { vm = t }) r)
  Keeps-put_back (ok a t) = gives (IsConsistent-beside t k.kstack_tf s)
  Keeps-put_back (err e t) = fails (IsConsistent-beside t k.kstack_tf s)
  Keeps-put_back Run.panic = panics

  -- An operation on memory, alone or before others.
  pub Keeps-vm : (m : Cmd PageState A) → Keeps (on_vm m k)
  unfolding on_vm
  Keeps-vm m = Keeps-put_back (m k.vm)

  pub Keeps-on_vm :
      {B : Type 0} (m : Cmd PageState A) (next : A → Cmd Kernel B)
      → ((a : A) (t : PageState)
          → IsConsistent (record k { vm = t })
          → Keeps (next a (record k { vm = t })))
      → Keeps (and_then (on_vm m k) next)
  Keeps-on_vm m next rest =
      Safe-on_vm k next m (λ a t. rest a t (IsConsistent-beside t k.kstack_tf s))
        (λ t. IsConsistent-beside t k.kstack_tf s)
