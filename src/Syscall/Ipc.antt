-- ===== src/Syscall/Ipc.antt =====
-- Message passing: `sys_ipc_recv` and `sys_ipc_try_send` of kern/syscall_all.c.
use spring_os.Base.{
  ℕ, ◌≡◌, ◌≢◌, refl, false, not, ◌&&◌, none, some, [], ◌∷◌, ◌++◌, ◌==◌, erase, update, arith,
  bit_or,
}
use spring_os.Base.Run.{inval, ipc_not_recv, ok, err}
use spring_os.Mmu.{pte_v}
use spring_os.Pmap.Mapping.{MapsWell, mapped, page_lookup-mapped}
use spring_os.Kernel.{
  Env, Kernel, status_runnable, status_not_runnable, set_env, get_env, current, current-some, on_vm,
  sched_insert_tail,
}
use spring_os.Env.{envid2env}
use spring_os.Sched.Slices.{IsScheduled}
use spring_os.Syscall.{is_illegal_va, deliver, send_page, map_found, sys_ipc_try_send}
use spring_os.Syscall.Status.{IsScheduled-wake}

-- The receiver `e` after it has got `value` from `c`.
abbrev pub received : Kernel → ℕ → ℕ → ℕ → ℕ → Env
received k c e value perm = record (k.envs e) {
  env_ipc_value = value;
  env_ipc_from = (k.envs c).env_id;
  env_ipc_perm = bit_or pte_v perm;
  env_ipc_recving = 0;
  env_status = status_runnable;
}

-- The state in which the message is delivered: the receiver is runnable, at the tail of the list.
abbrev pub delivered : Kernel → ℕ → ℕ → ℕ → ℕ → Kernel
delivered k c e value perm = record k {
  envs = update k.envs e (received k c e value perm);
  env_sched_list = k.env_sched_list ++ e ∷ [];
}

-- The receiver waits: it is blocked in `sys_ipc_recv`.
pub record IsWaiting (k : Kernel) (e : ℕ) : Type 0 where
  pub recving : (k.envs e).env_ipc_recving ≢ 0
  pub blocked : (k.envs e).env_status ≢ status_runnable

module _ {k : Kernel} {c e : ℕ} (envid value perm : ℕ) (cur : k.curenv ≡ some c)
    (named : envid2env envid false k ≡ ok e k) where
  -- A send from a legal address to an environment that does not receive returns -E_IPC_NOT_RECV
  -- and changes nothing.
  pub sys_ipc_try_send_not_waiting :
      (srcva : ℕ)
      → is_illegal_va srcva ≡ false
      → (k.envs e).env_ipc_recving ≡ 0
      → sys_ipc_try_send envid value srcva perm k ≡ err ipc_not_recv k
  unfolding sys_ipc_try_send get_env
  sys_ipc_try_send_not_waiting srcva legal idle =
      let test : (not (srcva == 0) && is_illegal_va srcva) ≡ false = rw legal (ground arith) in
      rw (test, named, idle)

  deliver-delivered :
      IsScheduled k
      → IsWaiting k e
      → (deliver e value perm k ≡ ok tt (delivered k c e value perm))
        × IsScheduled (delivered k c e value perm)
  unfolding deliver get_env set_env sched_insert_tail
  deliver-delivered s w =
      let now : current k ≡ ok c k = current-some k c cur in
      let (out, s') = IsScheduled-wake s e (received k c e value perm) w.blocked refl in
      (rw (now, out), s')

  -- A send without a page to a waiting environment stores the value, the permission and the
  -- sender, makes the receiver runnable at the tail of the list, changes nothing else, and keeps
  -- the list holding exactly the runnable environments.
  pub sys_ipc_try_send-delivered :
      IsScheduled k
      → IsWaiting k e
      → (sys_ipc_try_send envid value 0 perm k ≡ ok tt (delivered k c e value perm))
        × IsScheduled (delivered k c e value perm)
  unfolding sys_ipc_try_send get_env send_page
  sys_ipc_try_send-delivered s w =
      let (run, s') = deliver-delivered s w in
      let test : ((k.envs e).env_ipc_recving == 0) ≡ false = ground (arith, w.recving) in
      (rw (named, test, run), s')

  -- A send with a page at a legal address that the sender has not mapped returns -E_INVAL, and
  -- yet the receiver, another environment that waits, has got the value and is runnable.
  pub sys_ipc_try_send_unmapped :
      (srcva : ℕ)
      → IsScheduled k
      → IsWaiting k e
      → srcva ≢ 0
      → is_illegal_va srcva ≡ false
      → e ≢ c
      → MapsWell k.vm (k.envs c).env_pgdir srcva
      → mapped k.vm (k.envs c).env_pgdir srcva ≡ none
      → sys_ipc_try_send envid value srcva perm k ≡ err inval (delivered k c e value perm)
  unfolding sys_ipc_try_send get_env send_page on_vm map_found
  sys_ipc_try_send_unmapped srcva s w page legal ne m none_there =
      let (run, s') = deliver-delivered s w in
      let test : ((k.envs e).env_ipc_recving == 0) ≡ false = ground (arith, w.recving) in
      let test' : (not (srcva == 0) && is_illegal_va srcva) ≡ false = rw legal (ground arith) in
      let page' : (srcva == 0) ≡ false = ground (arith, page) in
      let now : current (delivered k c e value perm) ≡ ok c (delivered k c e value perm) =
        current-some (delivered k c e value perm) c cur in
      let sender : (c == e) ≡ false = ground (arith, ne) in
      rw (page', legal, named, test, run, now, sender, page_lookup-mapped m, none_there)

-- The receiver after `sys_ipc_recv`: it waits at its address, and somebody else runs.
pub record Blocked (c dstva : ℕ) (l : Kernel) : Type 0 where
  pub waiting : IsWaiting l c
  pub address : (l.envs c).env_ipc_dstva ≡ dstva
  pub other_runs : l.curenv ≢ some c
  pub scheduled : IsScheduled l

-- The state in which `sys_ipc_recv` calls the scheduler.
abbrev sleeping : Kernel → ℕ → ℕ → Kernel
sleeping k c dstva = record k {
  envs = update k.envs c (record (k.envs c) {
    env_ipc_recving = 1;
    env_ipc_dstva = dstva;
    env_status = status_not_runnable;
  });
  env_sched_list = erase c k.env_sched_list;
  kstack_tf = record k.kstack_tf { regs = update k.kstack_tf.regs 2 0 };
}
