-- ===== src/Sched/Consistent.antt =====
-- `schedule` (kern/sched.c) keeps the environments and their lists consistent.
use spring_os.Base.{
  ℕ, ◌≡◌, ◌≢◌, refl, ap, ◌∙◌, ◌⊎◌, inl, inr, Bool, true, false, not, ◌||◌, Option, none, some, List,
  [], ◌∷◌, arith, Bool-cases, subst,
}
use spring_os.Base.Run.{Safe, panics, Safe-mono, Ensures-Safe}
use spring_os.Kernel.{status_runnable, Env, Kernel}
use spring_os.Env.Running.{UpToFrame, Runs}
use spring_os.Env.Consistent.{IsLive, IsConsistent, Agree, IsConsistent-Agree}
use spring_os.Sched.{decrement, is_spent, is_runnable, schedule}
use spring_os.Sched.Slices.{
  IsScheduled, Picked, ticked, schedule-Picked, schedule_keeps, schedule_panics,
}

Agree-like :
    {k l : Kernel}
    → l.env_free_list ≡ k.env_free_list
    → l.asid_bitmap ≡ k.asid_bitmap
    → ((x : ℕ) → UpToFrame (l.envs x) (k.envs x))
    → Agree k l
Agree-like free asids like = record {
  free_list = free;
  asids = asids;
  status = λ x. ap (λ (y : Env). y.env_status) (like x);
  id = λ x. ap (λ (y : Env). y.env_id) (like x);
  asid = λ x. ap (λ (y : Env). y.env_asid) (like x);
}

-- A runnable environment that gets the processor is live.
next-IsLive :
    (l : Kernel) {n : ℕ}
    → l.curenv ≡ some n
    → (l.envs n).env_status ≡ status_runnable
    → (c : ℕ) → l.curenv ≡ some c
    → IsLive l c
next-IsLive l {n} cur run c h g =
    let same : n ≡ c = ground (arith, cur, h) in
    let run' : (l.envs c).env_status ≡ status_runnable =
      subst (λ y. (l.envs y).env_status ≡ status_runnable) same run in
    omega (arith, run', g)

Picked-IsConsistent : {k l : Kernel} → IsConsistent k → Picked (ticked k) l → IsConsistent l
Picked-IsConsistent {k} {l} s p =
    IsConsistent-Agree s (Agree-like p.free_list p.asids p.like) p.scheduled
      (next-IsLive l p.curenv (ground (arith, p.scheduled.exact p.next, p.sched)))

Runs-IsConsistent :
    {k l : Kernel} {c : ℕ}
    → IsConsistent k
    → (k.envs c).env_status ≡ status_runnable
    → Runs (ticked k) c l
    → IsScheduled l
    → IsConsistent l
Runs-IsConsistent {l = l} {c} s run r scheduled =
    IsConsistent-Agree s (Agree-like r.free_list r.asids r.like) scheduled
      (next-IsLive l r.curenv (r.status c ∙ run))

List-cases : (l : List ℕ) → (l ≡ []) ⊎ (l ≢ [])
List-cases [] = inl refl
List-cases (x ∷ l) = inr (λ h. cc)

-- The environment that goes on running.
current_runs :
    (k : Kernel) (o : Option ℕ)
    → is_runnable k o ≡ true
    → (c : ℕ) × (o ≡ some c) × ((k.envs c).env_status ≡ status_runnable)
unfolding is_runnable
current_runs k none h = absurd cc
current_runs k (some c) h = (c, refl, ground arith)

pub schedule-IsConsistent :
    (k : Kernel) (yield : Bool)
    → IsConsistent k
    → Safe (λ _ l. IsConsistent l) IsConsistent (schedule yield k)
schedule-IsConsistent k yield s = elim (List-cases k.env_sched_list) [
  | inl empty ↦ rw (schedule_panics k yield s.scheduled empty) panics
  | inr others ↦
      elim (Bool-cases (yield || is_spent (decrement k.count) || not (is_runnable k k.curenv))) [
        | inl next ↦
            Safe-mono
              (Ensures-Safe (schedule-Picked k yield s.scheduled others next) (λ e l no. absurd no))
              (λ _ l p. Picked-IsConsistent s p) (λ l h. h)
        | inr same ↦
            let stay : yield ≡ false = ground (arith, same) in
            let (c, cur, run) = current_runs k k.curenv (ground (arith, same)) in
            rw stay (
              Safe-mono
                (Ensures-Safe (schedule_keeps k c s.scheduled cur run (ground (arith, same)))
                  (λ e l no. absurd no))
                (λ _ l (r, t). Runs-IsConsistent s run r t) (λ l h. h))
      ]
]
