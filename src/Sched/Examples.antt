-- ===== src/Sched/Examples.antt =====
-- The theorems about kern/sched.c and the identifiers of kern/env.c at a kernel of four environments.
use spring_os.Base.{ℕ, ◌<◌, ◌≡◌, refl, true, some, [], ◌∷◌, arith}
use spring_os.Base.Run.{bad_env, no_free_env, Ensures}
use spring_os.Asid.{nasid, asid_used, asid_alloc}
use spring_os.Asid.Laws.{Taken, asid_alloc-Taken}
use spring_os.Kernel.Examples.{kernel}
use spring_os.Env.{envid2env}
use spring_os.Env.Ids.{Named, envid2env-Named}
use spring_os.Sched.{schedule}
use spring_os.Sched.Slices.{IsScheduled, Picked, ticked, schedule-Picked}
use spring_os.Sched.Rotation.{yields, yields_reach}

asid_alloc-Taken_example :
    Ensures
      (Taken kernel)
      (λ e l.
        (e ≡ no_free_env)
        × (l ≡ kernel)
        × ((j : ℕ) → j < nasid → asid_used kernel.asid_bitmap j ≡ true))
      (asid_alloc kernel)
asid_alloc-Taken_example = asid_alloc-Taken kernel

envid2env-Named_example :
    Ensures
      (λ i l. Named kernel 0 0x1001 true i × (l ≡ kernel))
      (λ e l. (e ≡ bad_env) × (l ≡ kernel) × ((i : ℕ) → ¬ (Named kernel 0 0x1001 true i)))
      (envid2env 0x1001 true kernel)
envid2env-Named_example = envid2env-Named kernel 0 0x1001 true refl

pub kernel-IsScheduled : IsScheduled kernel
kernel-IsScheduled = record { distinct = (refl, (refl, tt)); exact = λ e. ground arith }

schedule-Picked_example :
    Ensures (λ _ l. Picked (ticked kernel) l) (λ f l. ⊥) (schedule true kernel)
schedule-Picked_example = schedule-Picked kernel true kernel-IsScheduled (λ h. cc) refl

yields_reach_example : Ensures (λ _ l. l.curenv ≡ some 1) (λ f l. ⊥) (yields 1 kernel)
yields_reach_example =
    yields_reach 1 kernel 0 1 (1 ∷ [])
      (record { scheduled = kernel-IsScheduled; curenv = refl; queue = refl }) refl
