-- ===== src/Traps.antt =====
-- How the kernel is entered: `exception_handlers` of kern/traps.c, and `do_syscall` with its table
-- of kern/syscall_all.c.
pub mod Consistent
pub mod Reachable
pub mod Frames
pub mod Examples
use spring_os.Base.{
  ℕ, Bool, ◌+◌, ◌-◌, ◌/◌, ◌%◌, ◌^◌, true, false, ◌||◌, Option, none, some, List, [], ◌∷◌, leb, ◌==◌,
  if◌then◌else◌, update, length, get_elem?,
}
use spring_os.Base.Run.{
  code, no_sys, Run, Cmd, ok, err, panic, pure, fault, get, modify, check, ◌>>=◌, ◌>>◌,
}
use spring_os.Kernel.{Kernel, on_vm}
use spring_os.Env.{envid2env}
use spring_os.Sched.{schedule}
use spring_os.Syscall.{
  sys_getenvid, sys_yield, sys_set_tlb_mod_entry, sys_mem_alloc, sys_mem_map, sys_mem_unmap,
  sys_exofork, sys_set_env_status, sys_set_trapframe, sys_ipc_recv, sys_ipc_try_send,
}
use spring_os.Mmu.{pte_d}
use spring_os.Pmap.{Slot, page_lookup}
use spring_os.Tlbex.{frame_size, Handed, do_tlb_refill, do_tlb_mod}
use spring_os.Teardown.{is_current, env_destroy as destroy_env}
use spring_os.Machine.{
  Bus, Machine, Answer, value, switched, waiting, frame_at, put_frame, stack_word, on_kernel,
  printcharc, sys_print_cons, sys_cgetc, sys_write_dev, sys_read_dev,
}

-- The calls in the order of their numbers.
pub data Call : Type 0 where
  putchar print_cons getenvid yield env_destroy set_tlb_mod_entry mem_alloc mem_map mem_unmap : Call
  exofork set_env_status set_trapframe user_panic ipc_try_send ipc_recv cgetc write_dev : Call
  read_dev : Call

abbrev pub syscall_table : List Call
syscall_table =
    putchar ∷ print_cons ∷ getenvid ∷ yield ∷ env_destroy ∷ set_tlb_mod_entry ∷ mem_alloc ∷ mem_map
    ∷ mem_unmap ∷ exofork ∷ set_env_status ∷ set_trapframe ∷ user_panic ∷ ipc_try_send ∷ ipc_recv
    ∷ cgetc ∷ write_dev ∷ read_dev ∷ []

-- The handlers that `exception_handlers` names.
pub data Handler : Type 0 where
  handle_int handle_mod handle_tlb handle_sys handle_reserved : Handler

unfoldable pub exception_handlers : ℕ → Handler
exception_handlers c =
    if c == 0
    then handle_int
    else if (c == 2) || (c == 3)
    then handle_tlb
    else if c == 1
    then handle_mod
    else if c == 8
    then handle_sys
    else handle_reserved

-- The value of a call that returns 0.
unfoldable pub returning : {D A : Type 0} → Answer → Cmd Kernel A → Cmd (Machine D) Answer
returning a m = do _ ← on_kernel m; pure a

unfoldable pub returning_value : {D : Type 0} → Cmd Kernel ℕ → Cmd (Machine D) Answer
returning_value m = do v ← on_kernel m; pure (value v)

-- `sys_env_destroy`: the caller's own end is a switch, otherwise the call returns 0.
unfoldable pub destroying : {D : Type 0} → ℕ → Cmd (Machine D) Answer
destroying envid = do
  s ← get
  e ← on_kernel (envid2env envid true)
  on_kernel (destroy_env e)
  pure (if is_current s.kernel.curenv e then switched else value 0)

module _ {D : Type 0} (bus : Bus D) where
  -- A call with its five arguments. `left` is what $v0 holds after a function without a value, and
  -- `rounds` bounds the wait for a key.
  unfoldable pub invoke : (left rounds : ℕ) → Call → (a b c d e : ℕ) → Cmd (Machine D) Answer
  invoke left rounds putchar a b c d e = do printcharc bus a; pure (value left)
  invoke left rounds print_cons a b c d e = sys_print_cons bus a b
  invoke left rounds getenvid a b c d e = returning_value sys_getenvid
  invoke left rounds yield a b c d e = returning switched sys_yield
  invoke left rounds env_destroy a b c d e = destroying a
  invoke left rounds set_tlb_mod_entry a b c d e = returning (value 0) (sys_set_tlb_mod_entry a b)
  invoke left rounds mem_alloc a b c d e = returning (value 0) (sys_mem_alloc a b c)
  invoke left rounds mem_map a b c d e = returning (value 0) (sys_mem_map a b c d e)
  invoke left rounds mem_unmap a b c d e = returning (value 0) (sys_mem_unmap a b)
  invoke left rounds exofork a b c d e = returning_value sys_exofork
  invoke left rounds set_env_status a b c d e = returning (value 0) (sys_set_env_status a b)
  invoke left rounds set_trapframe a b c d e = do
    s ← get
    returning_value (sys_set_trapframe a b (frame_at s.user b))
  invoke left rounds user_panic a b c d e = fault
  invoke left rounds ipc_try_send a b c d e = returning (value 0) (sys_ipc_try_send a b c d)
  invoke left rounds ipc_recv a b c d e = returning switched (sys_ipc_recv a)
  invoke left rounds cgetc a b c d e = sys_cgetc bus rounds
  invoke left rounds write_dev a b c d e = sys_write_dev bus a b c
  invoke left rounds read_dev a b c d e = sys_read_dev bus a b c

-- `tf->regs[2] = …`
unfoldable pub set_v0 : {D : Type 0} → ℕ → Machine D → Machine D
set_v0 v s =
    let k = s.kernel in
    record s {
      kernel = record k { kstack_tf = record k.kstack_tf { regs = update k.kstack_tf.regs 2 v } };
    }

-- What becomes of the result of a call: an error code is negative. A switch has left the frame.
unfoldable pub answered : {D : Type 0} → Run (Machine D) Answer → Run (Machine D) (Unit {0})
answered (ok (value v) s) = ok tt (set_v0 v s)
answered (ok switched s) = ok tt s
answered (ok waiting s) = ok tt s
answered (err x s) = ok tt (set_v0 (2 ^ 32 - code x) s)
answered panic = panic

-- The pointer from the table.
unfoldable pub call_or_fault :
    {D : Type 0}
    → Bus D
    → (left rounds : ℕ) → Option Call
    → (a b c d e : ℕ) → Cmd (Machine D) Answer
call_or_fault bus left rounds none a b c d e = fault
call_or_fault bus left rounds (some f) a b c d e = invoke bus left rounds f a b c d e

unfoldable pub do_syscall : {D : Type 0} → Bus D → (left rounds : ℕ) → Cmd (Machine D) (Unit {0})
do_syscall bus left rounds s =
    let tf = s.kernel.kstack_tf in
    let n = tf.regs 4 in
    if leb (2 ^ 31) n || leb (length syscall_table) n
    then ok tt (set_v0 (2 ^ 32 - code no_sys) s)
    else let k = record s.kernel {
      kstack_tf = record tf { cp0_epc = (tf.cp0_epc + 4) % 2 ^ 32 };
    } in
      let t = record s { kernel = k } in
      answered (
        call_or_fault bus left rounds (get_elem? syscall_table n) (tf.regs 5) (tf.regs 6)
          (tf.regs 7) (stack_word s.user tf 16) (stack_word s.user tf 20) t)

-- The handler of a write to a read-only page: the frame goes to the user stack.
unfoldable pub give_frame : {D : Type 0} → Handed → Machine D → Machine D
give_frame h s = record s {
  kernel = record s.kernel { kstack_tf = h.tf };
  user = put_frame s.user h.address h.copy;
}

-- Whether the TLB takes a store with the entry of a refill: PTE_D is set.
unfoldable pub takes_store : Option ℕ → Bool
takes_store none = false
takes_store (some pte) = (pte / pte_d) % 2 == 1

-- User memory after a refill: a page that it had to allocate holds zeros.
unfoldable pub fresh_page : {D : Type 0} → Option (ℕ × Slot) → ℕ → Machine D → Machine D
fresh_page (some x) va s = s
fresh_page none va s = record s { user = λ b. if b / 4096 == va / 4096 then 0 else s.user b }

-- The TLB entry for a store to the user address `va`: the refill may allocate the page or panic,
-- and a store to a page that is not writable is an exception in the kernel. (`page_lookup` only
-- tells whether the refill allocates.)
unfoldable pub reach_page : {D : Type 0} → (rounds asid va : ℕ) → Cmd (Machine D) (Unit {0})
reach_page rounds asid va = do
  s ← get
  found ← on_kernel (on_vm (page_lookup s.kernel.cur_pgdir va))
  pte ← on_kernel (on_vm (do_tlb_refill rounds va s.kernel.cur_pgdir asid))
  if takes_store pte then modify (fresh_page found va) else fault

-- The words of the frame lie on the pages of its first and its last byte; an address that is not
-- a multiple of 4 is an exception in the kernel.
unfoldable pub handle_modified : {D : Type 0} → (rounds asid : ℕ) → Cmd (Machine D) (Unit {0})
handle_modified rounds asid = do
  s ← get
  h ← on_kernel (do_tlb_mod s.kernel.kstack_tf)
  check (h.address % 4 == 0)
  reach_page rounds asid h.address
  reach_page rounds asid (h.address + (frame_size - 1))
  modify (give_frame h)

-- `do_tlb_refill` reads the address and the identifier from coprocessor 0.
unfoldable pub handle_refill : {D : Type 0} → (rounds asid : ℕ) → Cmd (Machine D) (Unit {0})
handle_refill rounds asid = do
  s ← get
  let k = s.kernel
  _ ← on_kernel (on_vm (do_tlb_refill rounds k.kstack_tf.cp0_badvaddr k.cur_pgdir asid))
  pure tt

unfoldable pub handle :
    {D : Type 0} → Bus D → (left rounds asid : ℕ) → Handler → Cmd (Machine D) (Unit {0})
handle bus left rounds asid handle_int = on_kernel (schedule false)
handle bus left rounds asid handle_mod = handle_modified rounds asid
handle bus left rounds asid handle_tlb = handle_refill rounds asid
handle bus left rounds asid handle_sys = do_syscall bus left rounds
handle bus left rounds asid handle_reserved = fault
