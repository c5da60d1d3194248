-- ===== src/Syscall.antt =====
-- The system calls of kern/syscall_all.c that work on environments and memory.
pub mod Ranges
pub mod Memory
mod Examples
pub mod Ipc
pub mod Status
pub mod Consistent
pub mod Calls
pub mod Waking
pub mod Forking
use spring_os.Base.{
  ℕ, ◌+◌, ◌-◌, ◌*◌, ◌%◌, ◌^◌, Bool, true, false, not, ◌&&◌, ◌||◌, Option, none, some, List, [], ◌∷◌,
  bit_or, ltb, leb, ◌==◌, if◌then◌else◌, update,
}
use spring_os.Base.Run.{
  Error, inval, ipc_not_recv, Run, Cmd, ok, err, panic, pure, fail, get, modify, ◌>>=◌, ◌>>◌,
}
use spring_os.Mmu.{pte_v, utop, utemp}
use spring_os.Pmap.{Slot, page_alloc, page_insert, page_lookup, page_remove}
use spring_os.Kernel.{
  Trapframe, Env, status_runnable, status_not_runnable, Kernel, on_vm, set_env, get_env, current,
  sched_insert_tail, sched_remove,
}
use spring_os.Env.{envid2env, env_alloc}
use spring_os.Sched.{schedule}

-- A user address outside [UTEMP, UTOP).
unfoldable pub is_illegal_va : ℕ → Bool
is_illegal_va va = ltb va utemp || leb utop va

-- A range with the wrap-around of `va + len` in 32 bits.
unfoldable pub is_illegal_va_range : ℕ → ℕ → Bool
is_illegal_va_range va len =
    if len == 0
    then false
    else let end = (va + len) % 2 ^ 32 in ltb end va || ltb va utemp || ltb utop end

unfoldable pub in_range : ℕ → ℕ → ℕ → ℕ → Bool
in_range base range begin len =
    leb base begin && leb ((begin + len) % 2 ^ 32) ((base + range) % 2 ^ 32)

-- The console, the IDE disk and the clock.
unfoldable pub is_illegal_dev_pa_range : ℕ → ℕ → Bool
unfolding in_range
is_illegal_dev_pa_range pa len =
    if len == 0
    then false
    else if ltb ((pa + len) % 2 ^ 32) pa
    then true
    else not (
        in_range 0x10000000 0x20 pa len
        || in_range 0x13000000 0x4200 pa len
        || in_range 0x15000000 0x200 pa len)

unfoldable pub sys_getenvid : Cmd Kernel ℕ
sys_getenvid = do c ← current; x ← get_env c; pure x.env_id

unfoldable pub sys_yield : Cmd Kernel (Unit {0})
sys_yield = schedule true

unfoldable pub sys_set_tlb_mod_entry : ℕ → ℕ → Cmd Kernel (Unit {0})
sys_set_tlb_mod_entry envid func = do
  e ← envid2env envid true
  set_env e (λ x. record x { env_user_tlb_mod_entry = func })

-- `page_insert` into the address space of an environment.
unfoldable pub map_in : ℕ → ℕ → ℕ → ℕ → Cmd Kernel (Unit {0})
map_in e pp va perm = do x ← get_env e; on_vm (page_insert x.env_pgdir x.env_asid pp va perm)

unfoldable pub sys_mem_alloc : ℕ → ℕ → ℕ → Cmd Kernel (Unit {0})
unfolding map_in
sys_mem_alloc envid va perm =
    if is_illegal_va va
    then fail inval
    else (do e ← envid2env envid true; pp ← on_vm page_alloc; map_in e pp va perm)

-- A null page is -E_INVAL; a page is mapped at the destination.
unfoldable pub map_found : ℕ → ℕ → ℕ → Option (ℕ × Slot) → Cmd Kernel (Unit {0})
map_found e va perm none = fail inval
map_found e va perm (some (pp, slot)) = map_in e pp va perm

unfoldable pub sys_mem_map : ℕ → ℕ → ℕ → ℕ → ℕ → Cmd Kernel (Unit {0})
sys_mem_map srcid srcva dstid dstva perm =
    if is_illegal_va srcva || is_illegal_va dstva then fail inval else (do
      src ← envid2env srcid true
      dst ← envid2env dstid true
      x ← get_env src
      found ← on_vm (page_lookup x.env_pgdir srcva)
      map_found dst dstva perm found)

unfoldable pub sys_mem_unmap : ℕ → ℕ → Cmd Kernel (Unit {0})
sys_mem_unmap envid va =
    if is_illegal_va va
    then fail inval
    else (do e ← envid2env envid true; x ← get_env e; on_vm (page_remove x.env_pgdir x.env_asid va))

unfoldable pub sys_exofork : Cmd Kernel ℕ
sys_exofork = do
  c ← current
  cur ← get_env c
  e ← env_alloc cur.env_id
  k ← get
  set_env e (λ x. record x {
    env_tf = record k.kstack_tf { regs = update k.kstack_tf.regs 2 0 };
    env_status = status_not_runnable;
    env_pri = (k.envs c).env_pri;
  })
  x ← get_env e
  pure x.env_id

unfoldable pub sys_set_env_status : ℕ → ℕ → Cmd Kernel (Unit {0})
sys_set_env_status envid status =
    if not ((status == status_runnable) || (status == status_not_runnable)) then fail inval else (do
      e ← envid2env envid true
      if status == status_runnable then sched_insert_tail e else sched_remove e
      set_env e (λ x. record x { env_status = status }))

-- The frame `tf` is what user memory holds at the pointer; `at` is its address.
unfoldable pub sys_set_trapframe : ℕ → ℕ → Trapframe → Cmd Kernel ℕ
sys_set_trapframe envid at tf = if is_illegal_va_range at 152 then fail inval else (do
  e ← envid2env envid true
  c ← current
  if e == c
      then (do modify λ k. record k { kstack_tf = tf }; pure (tf.regs 2))
      else (do set_env e (λ x. record x { env_tf = tf }); pure 0))

-- `curenv` blocks; the value 0 that it returns later is put in the saved frame.
unfoldable pub sys_ipc_recv : ℕ → Cmd Kernel (Unit {0})
sys_ipc_recv dstva = if not (dstva == 0) && is_illegal_va dstva then fail inval else (do
  c ← current
  set_env c (λ x. record x {
    env_ipc_recving = 1;
    env_ipc_dstva = dstva;
    env_status = status_not_runnable;
  })
  sched_remove c
  modify λ k. record k { kstack_tf = record k.kstack_tf { regs = update k.kstack_tf.regs 2 0 } }
  schedule true)

-- Step 4 and 5 of a send: the message is stored, and the receiver made runnable.
unfoldable pub deliver : ℕ → ℕ → ℕ → Cmd Kernel (Unit {0})
deliver e value perm = do
  c ← current
  cur ← get_env c
  set_env e (λ x. record x {
    env_ipc_value = value;
    env_ipc_from = cur.env_id;
    env_ipc_perm = bit_or pte_v perm;
    env_ipc_recving = 0;
    env_status = status_runnable;
  })
  sched_insert_tail e

-- Step 6: the page at `srcva`, if one is sent.
unfoldable pub send_page : ℕ → ℕ → ℕ → Cmd Kernel (Unit {0})
send_page e srcva perm = if srcva == 0 then pure tt else (do
  c ← current
  cur ← get_env c
  found ← on_vm (page_lookup cur.env_pgdir srcva)
  x ← get_env e
  map_found e x.env_ipc_dstva perm found)

unfoldable pub sys_ipc_try_send : ℕ → ℕ → ℕ → ℕ → Cmd Kernel (Unit {0})
sys_ipc_try_send envid value srcva perm =
    if not (srcva == 0) && is_illegal_va srcva then fail inval else (do
      e ← envid2env envid false
      x ← get_env e
      if x.env_ipc_recving == 0
          then fail ipc_not_recv
          else (do deliver e value perm; send_page e srcva perm))
