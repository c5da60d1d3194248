-- ===== src/Env/Consistent.antt =====
-- What holds of the environments and of their lists between two entries of the kernel.
use spring_os.Base.{
  refl, ℕ, ◌<◌, ◌≡◌, ◌≢◌, sym, ap, ◌∙◌, true, ◌&&◌, some, List, ltb, ◌==◌, arith, has, Distinct,
  update,
}
use spring_os.Pmap.{PageState}
use spring_os.Kernel.{Trapframe, status_free, Env, Kernel}
use spring_os.Asid.{asid_used}
use spring_os.Env.{nenv, envx}
use spring_os.Sched.Slices.{IsScheduled}

-- An environment that is not free.
abbrev pub IsLive : Kernel → ℕ → Type 0
IsLive k e = (k.envs e).env_status ≢ status_free

-- The scheduling list holds exactly the runnable environments and the free list exactly the free
-- ones, each once; the current environment is live; a live environment has an index below NENV,
-- which its identifier holds, and an address space identifier that is in use and its own.
pub record IsConsistent (k : Kernel) : Type 0 where
  pub scheduled : IsScheduled k
  pub free_distinct : Distinct k.env_free_list
  pub free_exact :
      (e : ℕ) → has e k.env_free_list ≡ (ltb e nenv && ((k.envs e).env_status == status_free))
  pub current_live : (c : ℕ) → k.curenv ≡ some c → IsLive k c
  pub index : (e : ℕ) → IsLive k e → (e < nenv) × (envx (k.envs e).env_id ≡ e)
  pub asid : (e : ℕ) → IsLive k e → asid_used k.asid_bitmap (k.envs e).env_asid ≡ true
  pub asid_own :
      (e f : ℕ) → IsLive k e → IsLive k f → (k.envs e).env_asid ≡ (k.envs f).env_asid → e ≡ f

-- Two states with the same free list, identifiers in use, and environments up to what the invariant
-- does not speak of.
pub record Agree (k l : Kernel) : Type 0 where
  pub free_list : l.env_free_list ≡ k.env_free_list
  pub asids : l.asid_bitmap ≡ k.asid_bitmap
  pub status : (x : ℕ) → (l.envs x).env_status ≡ (k.envs x).env_status
  pub id : (x : ℕ) → (l.envs x).env_id ≡ (k.envs x).env_id
  pub asid : (x : ℕ) → (l.envs x).env_asid ≡ (k.envs x).env_asid

pub IsConsistent-Agree :
    {k l : Kernel}
    → IsConsistent k
    → Agree k l
    → IsScheduled l
    → ((c : ℕ) → l.curenv ≡ some c → IsLive l c)
    → IsConsistent l
IsConsistent-Agree {k} {l} s a scheduled current =
    let live : (e : ℕ) → IsLive l e → IsLive k e = λ e h g. h (a.status e ∙ g) in
    record {
      scheduled = scheduled;
      free_distinct = rw a.free_list s.free_distinct;
      free_exact = λ e. rw (a.free_list, a.status e) (s.free_exact e);
      current_live = current;
      index = λ e h. (let w = s.index e (live e h) in (w.0, ap envx (a.id e) ∙ w.1));
      asid = λ e h. rw (a.asids, a.asid e) (s.asid e (live e h));
      asid_own =
          λ e f h g eq. s.asid_own e f (live e h) (live f g) (sym (a.asid e) ∙ eq ∙ a.asid f);
    }

-- A live environment is set to another live state, and the scheduling list is brought up to date.
pub IsConsistent-relist :
    {k : Kernel} (s : IsConsistent k) (e : ℕ) (x : Env) (q : List ℕ)
    → IsLive k e
    → x.env_status ≢ status_free
    → x.env_id ≡ (k.envs e).env_id
    → x.env_asid ≡ (k.envs e).env_asid
    → IsScheduled (record k { envs = update k.envs e x; env_sched_list = q })
    → IsConsistent (record k { envs = update k.envs e x; env_sched_list = q })
IsConsistent-relist {k} s e x q old new id asid scheduled =
    let l : Kernel = record k { envs = update k.envs e x; env_sched_list = q } in
    let live : (y : ℕ) → IsLive l y → IsLive k y = λ y h g. ground (arith, h, old, g) in
    let same : (y : ℕ) → (l.envs y).env_asid ≡ (k.envs y).env_asid = λ y. ground (arith, asid) in
    let ids : (y : ℕ) → (l.envs y).env_id ≡ (k.envs y).env_id = λ y. ground (arith, id) in
    record {
      scheduled = scheduled;
      free_distinct = s.free_distinct;
      free_exact = λ y. ground (arith, s.free_exact y, old, new);
      current_live = λ c h g. ground (arith, s.current_live c h, g, new);
      index = λ y h. (let w = s.index y (live y h) in (w.0, ap envx (ids y) ∙ w.1));
      asid = λ y h. rw (same y) (s.asid y (live y h));
      asid_own = λ y z h g eq. s.asid_own y z (live y h) (live z g) (sym (same y) ∙ eq ∙ same z);
    }

-- Memory and the frame on the kernel's stack do not matter.
pub IsConsistent-beside :
    {k : Kernel} (t : PageState) (tf : Trapframe)
    → IsConsistent k
    → IsConsistent (record k { vm = t; kstack_tf = tf })
IsConsistent-beside t tf s = record {
  scheduled = record { distinct = s.scheduled.distinct; exact = s.scheduled.exact };
  free_distinct = s.free_distinct;
  free_exact = s.free_exact;
  current_live = s.current_live;
  index = s.index;
  asid = s.asid;
  asid_own = s.asid_own;
}

-- Nor do the other fields of an environment.
pub IsConsistent-touch :
    {k : Kernel} (s : IsConsistent k) (e : ℕ) (x : Env)
    → x.env_status ≡ (k.envs e).env_status
    → x.env_id ≡ (k.envs e).env_id
    → x.env_asid ≡ (k.envs e).env_asid
    → IsConsistent (record k { envs = update k.envs e x })
IsConsistent-touch {k} s e x status id asid =
    IsConsistent-Agree s
      (record {
        free_list = refl;
        asids = refl;
        status = λ y. ground (arith, status);
        id = λ y. ground (arith, id);
        asid = λ y. ground (arith, asid);
      })
      (record {
        distinct = s.scheduled.distinct;
        exact = λ y. ground (arith, status, s.scheduled.exact y);
      })
      (λ c h g. ground (arith, s.current_live c h, status, g))

-- Nor does the template directory.
pub IsConsistent-template :
    {k : Kernel} (d : ℕ) → IsConsistent k → IsConsistent (record k { base_pgdir = d })
IsConsistent-template d s = record {
  scheduled = record { distinct = s.scheduled.distinct; exact = s.scheduled.exact };
  free_distinct = s.free_distinct;
  free_exact = s.free_exact;
  current_live = s.current_live;
  index = s.index;
  asid = s.asid;
  asid_own = s.asid_own;
}
