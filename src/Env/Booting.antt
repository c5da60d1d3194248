-- ===== src/Env/Booting.antt =====
-- `env_init` of kern/env.c makes the environments and their lists consistent, and `env_create` keeps
-- them so.
use spring_os.Base.{
  ℕ, zero, suc, ◌*◌, ◌<◌, ◌≡◌, refl, sym, ap, ◌∙◌, subst, ◌&&◌, none, [], ltb, leb, has, Distinct,
  arith,
}
use spring_os.Base.Run.{Safe, gives, Safe-bind, Safe-mono, Safe-panic_on}
use spring_os.Mmu.{pte_g, round_up, upages, uenvs}
use spring_os.Pmap.{page_alloc, inc_ref, kaddr}
use spring_os.Kernel.{Kernel, status_free, set_env}
use spring_os.Env.{nenv}
use spring_os.Env.Start.{free_envs, map_segment, env_init}
use spring_os.Env.Consistent.{IsConsistent-template, IsConsistent}
use spring_os.Syscall.Consistent.{Keeps, Keeps-vm, Keeps-on_vm}

-- Before `env_init`: no environment is in use, and no identifier.
pub record IsZeroed (k : Kernel) : Type 0 where
  pub curenv : k.curenv ≡ none
  pub free : (e : ℕ) → (k.envs e).env_status ≡ status_free

-- With `n` environments left, the others are on the list.
record Freeing (n : ℕ) (k : Kernel) : Type 0 where
  zeroed : IsZeroed k
  sched : k.env_sched_list ≡ []
  distinct : Distinct k.env_free_list
  exact : (e : ℕ) → has e k.env_free_list ≡ (leb n e && ltb e nenv)

Freeing-IsConsistent : (k : Kernel) → Freeing 0 k → IsConsistent k
Freeing-IsConsistent k f = record {
  scheduled = record {
    distinct = subst Distinct (sym f.sched) tt;
    exact = λ e. ap (has e) f.sched ∙ ground (arith, f.zeroed.free e);
  };
  free_distinct = f.distinct;
  free_exact = λ e. f.exact e ∙ ground (arith, f.zeroed.free e);
  current_live = λ c h. absurd (ground (arith, f.zeroed.curenv, h));
  index = λ e live. absurd (live (f.zeroed.free e));
  asid = λ e live. absurd (live (f.zeroed.free e));
  asid_own = λ e g live _ _. absurd (live (f.zeroed.free e));
}

free_envs-IsConsistent :
    (n : ℕ) (k : Kernel)
    → n < suc nenv
    → Freeing n k
    → Safe (λ _ l. IsConsistent l) (λ l. ⊥) (free_envs n k)
unfolding free_envs set_env
free_envs-IsConsistent zero k lt f = gives (Freeing-IsConsistent k f)
free_envs-IsConsistent (suc i) k lt f = free_envs-IsConsistent i _ (omega (arith, lt)) (record {
  zeroed = record { curenv = f.zeroed.curenv; free = λ e. ground (arith, f.zeroed.free e) };
  sched = f.sched;
  distinct = (f.exact i ∙ ground arith, f.distinct);
  exact = λ e. ground (arith, f.exact e, lt);
})

-- `env_init`, on a kernel in which no environment is in use, makes everything consistent.
pub env_init-IsConsistent :
    (pages envs : ℕ) (k : Kernel) → IsZeroed k → Keeps (env_init pages envs k)
unfolding env_init
env_init-IsConsistent pages envs k z =
    Safe-bind
      (Safe-mono
        (free_envs-IsConsistent nenv _ (omega arith) (record {
          zeroed = record { curenv = z.curenv; free = z.free };
          sched = refl;
          distinct = tt;
          exact = λ e. ground arith;
        }))
        (λ _ l s. s) (λ l no. absurd no))
      (λ _ l s. Safe-bind (Safe-panic_on (Keeps-vm l s page_alloc)) (λ p l s.
        Keeps-on_vm l s (inc_ref p) _ (λ _ t s. Keeps-on_vm _ s (kaddr p) _ (λ d t s.
          Keeps-on_vm _ (IsConsistent-template d s)
            (map_segment d 0 pages upages (round_up (t.npage * 12) 4096) pte_g) _
            (λ _ u s.
              Keeps-vm _ s (map_segment d 0 envs uenvs (round_up (nenv * 220) 4096) pte_g))))))
