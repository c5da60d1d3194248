-- ===== src/Kernel/Examples.antt =====
-- A kernel with four environments, for the examples of the modules above it: 0 runs, 1 is runnable
-- and a child of 0, 2 waits for a message, 3 is free.
use spring_os.Base.{ℕ, some, [], ◌∷◌, ◌==◌, if◌then◌else◌}
use spring_os.Kernel.{Trapframe, Env, Kernel, status_runnable, status_not_runnable, status_free}
use spring_os.Pmap.Examples.{machine}

abbrev pub frame : Trapframe
frame = record {
  regs = λ i. 0;
  cp0_status = 0;
  hi = 0;
  lo = 0;
  cp0_badvaddr = 0;
  cp0_cause = 0;
  cp0_epc = 0;
}

abbrev pub env_with : ℕ → ℕ → ℕ → ℕ → Env
env_with id parent status recving = record {
  env_tf = frame;
  env_id = id;
  env_asid = 0;
  env_parent_id = parent;
  env_status = status;
  env_pgdir = 1;
  env_pri = 3;
  env_ipc_value = 0;
  env_ipc_from = 0;
  env_ipc_recving = recving;
  env_ipc_dstva = 0;
  env_ipc_perm = 0;
  env_user_tlb_mod_entry = 0;
  env_runs = 0;
}

abbrev pub table : ℕ → Env
table i =
    if i == 0
    then env_with 0x800 0 status_runnable 0
    else if i == 1
    then env_with 0x1001 0x800 status_runnable 0
    else if i == 2
    then env_with 0x1802 0x800 status_not_runnable 1
    else env_with 0 0 status_free 0

abbrev pub kernel : Kernel
kernel = record {
  vm = machine;
  envs = table;
  curenv = some 0;
  env_free_list = 3 ∷ [];
  env_sched_list = 0 ∷ 1 ∷ [];
  asid_bitmap = λ i. 0;
  next_id = 3;
  count = 3;
  kstack_tf = frame;
  base_pgdir = 0;
  cur_pgdir = 1;
}
