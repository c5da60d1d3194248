-- ===== src/Kernel.antt =====
-- The state of the kernel that kern/env.c, kern/sched.c and kern/syscall_all.c share: the
-- environments of include/env.h, the two lists that hold them, and physical memory.
pub mod Examples
use spring_os.Base.{
  arith, ℕ, ◌+◌, ◌-◌, ◌%◌, ◌^◌, ◌≡◌, Bool, true, false, not, Option, none, some, List, [], ◌∷◌,
  ◌++◌, ◌==◌, if◌then◌else◌, has, erase, update,
}
use spring_os.Base.Run.{Run, Cmd, ok, err, panic, pure, get, modify, check, put_back, ◌>>=◌, ◌>>◌}
use spring_os.Pmap.{PageState}

-- Saved registers.
pub record Trapframe : Type 0 where
  pub regs : ℕ → ℕ
  pub cp0_status : ℕ
  pub hi : ℕ
  pub lo : ℕ
  pub cp0_badvaddr : ℕ
  pub cp0_cause : ℕ
  pub cp0_epc : ℕ

-- `env_pgdir` is the number of the page that holds the directory. The links of the two lists are
-- not fields: the lists stand in the kernel's state.
pub record Env : Type 0 where
  pub env_tf : Trapframe
  pub env_id : ℕ
  pub env_asid : ℕ
  pub env_parent_id : ℕ
  pub env_status : ℕ
  pub env_pgdir : ℕ
  pub env_pri : ℕ
  pub env_ipc_value : ℕ
  pub env_ipc_from : ℕ
  pub env_ipc_recving : ℕ
  pub env_ipc_dstva : ℕ
  pub env_ipc_perm : ℕ
  pub env_user_tlb_mod_entry : ℕ
  pub env_runs : ℕ

-- The values of `env_status`.
abbrev pub status_free : ℕ
status_free = 0

abbrev pub status_runnable : ℕ
status_runnable = 1

abbrev pub status_not_runnable : ℕ
status_not_runnable = 2

-- The globals. An environment is known by its index in `envs`. `asid_bitmap` holds the words of the
-- bitmap, `next_id` and `count` are the static variables of `mkenvid` and `schedule` (the latter an
-- `int`, kept as its 32-bit pattern), `kstack_tf` is the frame below KSTACKTOP.
pub record Kernel : Type 0 where
  pub vm : PageState
  pub envs : ℕ → Env
  pub curenv : Option ℕ
  pub env_free_list : List ℕ
  pub env_sched_list : List ℕ
  pub asid_bitmap : ℕ → ℕ
  pub next_id : ℕ
  pub count : ℕ
  pub kstack_tf : Trapframe
  pub base_pgdir : ℕ
  pub cur_pgdir : ℕ

-- An operation on memory, inside the kernel.
unfoldable pub on_vm : {A : Type 0} → Cmd PageState A → Cmd Kernel A
on_vm m k = put_back (λ t. record k { vm = t }) (m k.vm)

-- `e->field = …` for the environment at an index.
unfoldable pub set_env : ℕ → (Env → Env) → Cmd Kernel (Unit {0})
set_env e f = modify λ k. record k { envs = update k.envs e (f (k.envs e)) }

unfoldable pub get_env : ℕ → Cmd Kernel Env
get_env e k = ok (k.envs e) k

-- The index of `curenv`; a null `curenv` would be dereferenced by the callers, a fault.
unfoldable pub current : Cmd Kernel ℕ
current k = elim k.curenv [ none ↦ panic | some c ↦ ok c k ]

pub current-some : (k : Kernel) (c : ℕ) → k.curenv ≡ some c → current k ≡ ok c k
unfolding current
current-some k c e = ground arith

-- TAILQ_INSERT_TAIL, TAILQ_INSERT_HEAD and TAILQ_REMOVE on `env_sched_list`. The macros
-- do not test whether the element is on the list; if it is inserted twice, or removed though it is
-- not there, they corrupt the links and go on, which a sequence cannot show: that misuse is a fault
-- here, and every other use does what the macro does.
unfoldable pub sched_insert_tail : ℕ → Cmd Kernel (Unit {0})
sched_insert_tail e = do
  k ← get
  check (not (has e k.env_sched_list))
  modify λ k. record k { env_sched_list = k.env_sched_list ++ e ∷ [] }

unfoldable pub sched_insert_head : ℕ → Cmd Kernel (Unit {0})
sched_insert_head e = do
  k ← get
  check (not (has e k.env_sched_list))
  modify λ k. record k { env_sched_list = e ∷ k.env_sched_list }

unfoldable pub sched_remove : ℕ → Cmd Kernel (Unit {0})
sched_remove e = do
  k ← get
  check (has e k.env_sched_list)
  modify λ k. record k { env_sched_list = erase e k.env_sched_list }
