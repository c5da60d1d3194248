-- ===== src/Syscall/Forking.antt =====
-- `sys_exofork` of kern/syscall_all.c keeps the environments and their lists consistent.
use spring_os.Base.{ℕ, ◌≡◌, refl, sym, ap, ◌∙◌, subst, has, update, arith, Distinct}
use spring_os.Base.Run.{gives, Safe-bind, Safe-mono}
use spring_os.Kernel.{Env, Kernel, status_not_runnable, set_env, get_env}
use spring_os.Env.Alloc.{Fresh, env_alloc-Fresh}
use spring_os.Env.Adding.{by_env, was_free, added-IsConsistent}
use spring_os.Env.Consistent.{IsConsistent, IsConsistent-beside}
use spring_os.Sched.Slices.{IsScheduled}
use spring_os.Syscall.{sys_exofork}
use spring_os.Syscall.Consistent.{Keeps, Keeps-current}

module _ {k l : Kernel} {e : ℕ} (s : IsConsistent k) (f : Fresh k e l) (x : Env)
    (status : x.env_status ≡ status_not_runnable) where
  fork-IsScheduled :
      IsScheduled (record l { envs = update l.envs e x; env_sched_list = l.env_sched_list })
  fork-IsScheduled = record {
    distinct = subst Distinct (sym f.sched) s.scheduled.distinct;
    exact =
        by_env s f _
          (ap (has e) f.sched ∙ s.scheduled.exact e ∙ ground (arith, (was_free s f).0, status))
          (λ y ne. ground (arith, ne, ap (has y) f.sched, s.scheduled.exact y, f.kept y ne));
  }

pub exofork-Keeps : (k : Kernel) → IsConsistent k → Keeps (sys_exofork k)
unfolding sys_exofork get_env set_env
exofork-Keeps k s = Keeps-current k s _ (λ c cur live.
    Safe-bind
      (Safe-mono (env_alloc-Fresh k (k.envs c).env_id) (λ e l f. f)
        (λ l eq. subst IsConsistent (sym eq) (IsConsistent-beside l.vm k.kstack_tf s)))
      (λ e l f. gives (
        added-IsConsistent s f _ l.env_sched_list (λ h. omega (arith, h)) refl refl
          (fork-IsScheduled s f _ refl))))
