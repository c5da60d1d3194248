-- ===== src/Env/Running.antt =====
-- Switching to an environment: `env_run` of kern/env.c.
use spring_os.Base.{
  ℕ, inl, inr, ap, subst, Bool-cases, ◌+◌, ◌%◌, ◌^◌, ◌≡◌, refl, true, Option, none, some, ◌==◌,
  arith, update,
}
use spring_os.Base.Run.{ok, Ensures, returned}
use spring_os.Kernel.{Env, status_runnable, Kernel}
use spring_os.Env.{env_run, save_frame}

-- The environment is the same but for its saved frame and the number of its runs.
abbrev pub UpToFrame : Env → Env → Type 0
UpToFrame x y = x ≡ record y { env_tf = x.env_tf; env_runs = x.env_runs }

-- What `env_run e` changes: `e` is current, and has run once more.
pub record Runs (k : Kernel) (e : ℕ) (l : Kernel) : Type 0 where
  pub curenv : l.curenv ≡ some e
  pub sched : l.env_sched_list ≡ k.env_sched_list
  pub count : l.count ≡ k.count
  pub runs : (l.envs e).env_runs ≡ ((k.envs e).env_runs + 1) % 2 ^ 32
  pub status : (x : ℕ) → (l.envs x).env_status ≡ (k.envs x).env_status
  pub pri : (x : ℕ) → (l.envs x).env_pri ≡ (k.envs x).env_pri
  pub like : (x : ℕ) → UpToFrame (l.envs x) (k.envs x)
  pub free_list : l.env_free_list ≡ k.env_free_list
  pub asids : l.asid_bitmap ≡ k.asid_bitmap
  pub pgdir : l.cur_pgdir ≡ (k.envs e).env_pgdir

-- The environments after the frame of the running one is saved.
saved : Option ℕ → Kernel → ℕ → Env
saved none k = k.envs
saved (some c) k = update k.envs c (record (k.envs c) { env_tf = k.kstack_tf })

save_frame-saved :
    (o : Option ℕ) (k : Kernel) → save_frame o k ≡ ok tt (record k { envs = saved o k })
unfolding save_frame saved
save_frame-saved none k = refl
save_frame-saved (some c) k = refl

record Alike (x y : Env) : Type 0 where
  status : x.env_status ≡ y.env_status
  pri : x.env_pri ≡ y.env_pri
  runs : x.env_runs ≡ y.env_runs
  pgdir : x.env_pgdir ≡ y.env_pgdir
  like : UpToFrame x y

saved-Alike : (o : Option ℕ) (k : Kernel) (x : ℕ) → Alike (saved o k x) (k.envs x)
unfolding saved
saved-Alike none k x = record { status = refl; pri = refl; runs = refl; pgdir = refl; like = refl }
saved-Alike (some c) k x = ground arith

like_update :
    (f g : ℕ → Env) (e n x : ℕ)
    → ((y : ℕ) → UpToFrame (f y) (g y))
    → UpToFrame (update f e (record (f e) { env_runs = n }) x) (g x)
like_update f g e n x h = elim (Bool-cases (x == e)) [
  | inr other ↦ rw other (h x)
  | inl same ↦
      let eq : e ≡ x = ground arith in
      rw same (
        subst (λ y. UpToFrame (record (f e) { env_runs = n }) (g y)) eq
          (ap (λ (y : Env). record y { env_runs = n }) (h e)))
]

pub env_run-Runs :
    (k : Kernel) (e : ℕ)
    → (k.envs e).env_status ≡ status_runnable
    → Ensures (λ _ l. Runs k e l) (λ f l. ⊥) (env_run e k)
unfolding env_run
env_run-Runs k e run =
    let test : ((k.envs e).env_status == status_runnable) ≡ true = ground arith in
    let own = saved-Alike k.curenv k e in
    rw (test, save_frame-saved k.curenv k)
      (returned (record {
        curenv = refl;
        sched = refl;
        count = refl;
        runs = ground (arith, own.runs);
        status = λ x. ground (arith, own.status, (saved-Alike k.curenv k x).status);
        pri = λ x. ground (arith, own.pri, (saved-Alike k.curenv k x).pri);
        like =
            λ x. like_update (saved k.curenv k) k.envs e _ x (λ y. (saved-Alike k.curenv k y).like);
        free_list = refl;
        asids = refl;
        pgdir = ground (arith, own.pgdir);
      }))
