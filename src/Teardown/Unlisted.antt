-- ===== src/Teardown/Unlisted.antt =====
-- `env_free` of kern/env.c takes the environment off the scheduling list, whether it is on it or not.
use spring_os.Base.{ℕ, ◌≡◌, List}
use spring_os.Base.Run.{Run, ok, err, panic}
use spring_os.Kernel.{Env, Kernel}

-- If the run returns, the scheduling list is `l`.
unfoldable Keeps : {A : Type 0} → List ℕ → Run Kernel A → Type 0
Keeps l (ok a t) = t.env_sched_list ≡ l
Keeps l (err e t) = Unit {0}
Keeps l panic = Unit {0}

-- The run does not return.
unfoldable pub Fails : {A : Type 0} → Run Kernel A → Type 0
Fails (ok a t) = ⊥
Fails (err e t) = Unit {0}
Fails panic = Unit {0}
