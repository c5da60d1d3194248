-- ===== src/Sched.antt =====
-- The scheduler: `schedule` of kern/sched.c, which ends in `env_run` of kern/env.c.
pub mod Slices
pub mod Consistent
pub mod Examples
pub mod Rotation
use spring_os.Base.{
  ℕ, ◌+◌, ◌-◌, ◌%◌, ◌^◌, ◌≡◌, Bool, true, false, not, ◌&&◌, ◌||◌, Option, none, some, List, [], ◌∷◌,
  leb, ◌==◌, if◌then◌else◌,
}
use spring_os.Base.Run.{Cmd, ok, panic, pure, fault, get, modify, ◌>>=◌, ◌>>◌}
use spring_os.Kernel.{Env, status_runnable, Kernel, sched_insert_tail, sched_remove}
use spring_os.Env.{env_run}

-- `count--` and `count <= 0` on a 32-bit pattern.
unfoldable pub decrement : ℕ → ℕ
decrement count = (count + (2 ^ 32 - 1)) % 2 ^ 32

unfoldable pub is_spent : ℕ → Bool
is_spent count = (count == 0) || leb (2 ^ 31) count

-- `e && e->env_status == ENV_RUNNABLE`
unfoldable pub is_runnable : Kernel → Option ℕ → Bool
is_runnable k none = false
is_runnable k (some e) = (k.envs e).env_status == status_runnable

-- A runnable environment that gives way goes to the tail.
unfoldable pub requeue : Option ℕ → Cmd Kernel (Unit {0})
unfolding sched_remove sched_insert_tail is_runnable
requeue none k = ok tt k
requeue (some e) k =
    if is_runnable k (some e) then (do sched_remove e; sched_insert_tail e) k else ok tt k

-- The head of the list gets the processor, with its priority for a slice.
unfoldable pub run_head : List ℕ → Cmd Kernel (Unit {0})
run_head [] = fault
run_head (e ∷ rest) = do modify λ k. record k { count = (k.envs e).env_pri }; env_run e

unfoldable pub pick : Cmd Kernel (Unit {0})
pick = do k ← get; requeue k.curenv; k ← get; run_head k.env_sched_list

-- `schedule(0)` for the environment that goes on running.
unfoldable pub go_on : Option ℕ → Cmd Kernel (Unit {0})
go_on none = fault
go_on (some e) = env_run e

unfoldable pub schedule : Bool → Cmd Kernel (Unit {0})
schedule yield = do
  modify λ k. record k { count = decrement k.count }
  k ← get
  if yield || is_spent k.count || not (is_runnable k k.curenv) then pick else go_on k.curenv
