-- ===== src/Env.antt =====
-- Environments: `mkenvid`, `envid2env`, `env_setup_vm`, `env_alloc` and `env_run` of kern/env.c.
pub mod Ids
pub mod Running
pub mod Create
pub mod Start
pub mod Consistent
pub mod Alloc
pub mod Adding
pub mod Booting
pub mod Creating
use spring_os.Base.{
  ℕ, ◌+◌, ◌-◌, ◌*◌, ◌%◌, ◌^◌, Bool, true, false, not, ◌&&◌, ◌||◌, Option, none, some, List, [], ◌∷◌,
  bit_or, bit_and, ltb, leb, ◌==◌, if◌then◌else◌, erase, update,
}
use spring_os.Base.Run.{
  Error, bad_env, no_free_env, Run, Cmd, ok, err, panic, pure, fail, get, modify, check, panic_on,
  ◌>>=◌, ◌>>◌,
}
use spring_os.Mmu.{pdx, page2pa, pte_v, utop, uvpt, ustacktop}
use spring_os.Pmap.{PageState, page_alloc, inc_ref}
use spring_os.Kernel.{
  Trapframe, Env, status_free, status_runnable, Kernel, on_vm, set_env, get_env, current,
}
use spring_os.Asid.{asid_alloc}

abbrev pub nenv : ℕ
nenv = 1024

-- ENVX(envid), the low ten bits.
unfoldable pub envx : ℕ → ℕ
envx envid = envid % nenv

-- The identifier of environment `e` in generation `i`: `(i << (1 + LOG2NENV)) | (e - envs)`.
unfoldable pub make_id : ℕ → ℕ → ℕ
make_id i e = bit_or (i * 2 ^ 11 % 2 ^ 32) e

unfoldable pub mkenvid : ℕ → Cmd Kernel ℕ
unfolding make_id
mkenvid e k = let i = (k.next_id + 1) % 2 ^ 32 in ok (make_id i e) (record k { next_id = i })

-- `curenv` itself or an immediate child of it.
unfoldable pub may_control : Env → Env → Bool
may_control cur e = (e.env_id == cur.env_id) || (e.env_parent_id == cur.env_id)

unfoldable pub envid2env : ℕ → Bool → Cmd Kernel ℕ
unfolding envx current get_env may_control
envid2env envid checkperm = if envid == 0 then current else (do
  let i = envx envid
  e ← get_env i
  if (e.env_status == status_free) || not (e.env_id == envid)
      then fail bad_env
      else if checkperm
      then (do c ← current; cur ← get_env c; if may_control cur e then pure i else fail bad_env)
      else pure i)

-- The words of a new directory: those of the template from UTOP up to UVPT, and at UVPT the
-- directory itself.
unfoldable pub dir_words : (base own : ℕ → ℕ) → ℕ → ℕ → ℕ
dir_words base own p i =
    if i == pdx uvpt
    then bit_or (page2pa p) pte_v
    else if leb (pdx utop) i && ltb i (pdx uvpt)
    then base i
    else own i

unfoldable pub env_setup_vm : ℕ → Cmd Kernel (Unit {0})
unfolding on_vm set_env dir_words
env_setup_vm e = do
  p ← on_vm page_alloc
  on_vm (inc_ref p)
  set_env e (λ x. record x { env_pgdir = p })
  k ← get
  on_vm (
      modify
        λ s. record s { words = update s.words p (dir_words (s.words k.base_pgdir) (s.words p) p) })

-- STATUS_IM4 | STATUS_KUp | STATUS_IEp
abbrev pub user_status : ℕ
user_status = 0x1000 + 0x8 + 0x4

-- Step 3 to 5 of `env_alloc`, for the environment taken from the list.
env_fill : ℕ → ℕ → Cmd Kernel ℕ
unfolding mkenvid set_env panic_on
env_fill e parent_id = do
  set_env e (λ x. record x { env_user_tlb_mod_entry = 0; env_runs = 0 })
  id ← mkenvid e
  set_env e (λ x. record x { env_id = id })
  asid ← (λ k. panic_on (asid_alloc k))
  set_env e (λ x. record x { env_asid = asid; env_parent_id = parent_id })
  set_env e (λ x. record x {
    env_tf = record x.env_tf {
      cp0_status = user_status;
      regs = update x.env_tf.regs 29 (ustacktop - 4 - 4);
    };
  })
  modify λ k. record k { env_free_list = erase e k.env_free_list }
  pure e

alloc_from : ℕ → List ℕ → Cmd Kernel ℕ
unfolding env_setup_vm env_fill
alloc_from parent_id [] = fail no_free_env
alloc_from parent_id (e ∷ rest) = do env_setup_vm e; env_fill e parent_id

unfoldable pub env_alloc : ℕ → Cmd Kernel ℕ
unfolding alloc_from
env_alloc parent_id k = alloc_from parent_id k.env_free_list k

-- The frame on the kernel stack is saved into the environment that was running.
save_frame : Option ℕ → Cmd Kernel (Unit {0})
unfolding set_env
save_frame none k = ok tt k
save_frame (some c) k = set_env c (λ x. record x { env_tf = k.kstack_tf }) k

-- Up to `env_pop_tf`, which loads the registers and enters user mode.
unfoldable pub env_run : ℕ → Cmd Kernel (Unit {0})
unfolding get_env save_frame set_env
env_run e = do
  x ← get_env e
  check (x.env_status == status_runnable)
  k ← get
  save_frame k.curenv
  modify λ k. record k { curenv = some e }
  set_env e (λ x. record x { env_runs = (x.env_runs + 1) % 2 ^ 32 })
  k ← get
  modify λ k. record k { cur_pgdir = (k.envs e).env_pgdir }
