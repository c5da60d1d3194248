-- ===== src/Traps/Examples.antt =====
-- The theorems about the entries into the kernel at a machine that starts with 66 pages.
use spring_os.Base.{◌≡◌, arith, update, ℕ, refl, ◌==◌, none, [], ◌∷◌, ltb, if◌then◌else◌}
use spring_os.Base.Run.{Ensures, Run, ok}
use spring_os.Kernel.{current, Kernel, Trapframe, status_free}
use spring_os.Kernel.Examples.{kernel, frame, env_with}
use spring_os.Env.Start.{env_init, free_envs, map_segment}
use spring_os.Env.Create.{env_create}
use spring_os.Env.Consistent.{IsConsistent}
use spring_os.Machine.{value, frame_word, Bus, Machine}
use spring_os.Traps.{
  set_trapframe, handle_modified, answered, call_or_fault, invoke, returning_value, do_syscall,
  handle, exception_handlers,
}
use spring_os.Base.{◌&&◌, ◌%◌}
use spring_os.Pmap.Examples.{machine}
use spring_os.Pmap.Mapping.{mapped}
use spring_os.Tlbex.{exception_sp}
use spring_os.Traps.{takes_store}
use spring_os.Traps.Frames.{CanStore, IsFrame, SameFrame, handle_modified-restored}
use spring_os.Traps.Reachable.{
  Booted, initialised, created, enter, entered, Reachable, started, then_enter,
  Reachable-IsConsistent,
}
use spring_os.Kernel.{on_vm, sched_insert_head, set_env}
use spring_os.Base.Run.{ignoring, panic_on}
use spring_os.Pmap.{
  entry_hi, inc_ref, kaddr, pa2page, page_alloc, page_decref, page_free, page_insert, page_lookup,
  page_remove, pgdir_walk, read_word, tlb_invalidate, write_word, write_words,
}
use spring_os.Mmu.{is_valid, make_pte, page2pa, pdx, ppn, pte_addr, ptx, round_up, table_pte}
use spring_os.Env.Start.{map_from}
use spring_os.Base.Bits.{set_bit, test_bit, word_of}
use spring_os.Env.{env_run, env_alloc, mkenvid}
use spring_os.Asid.{asid_alloc}
use spring_os.Env.Create.{load_icode, load_phdrs}
use spring_os.Elf.{half_at, is_elf, word_at}
use spring_os.Machine.{on_kernel}
use spring_os.Sched.{schedule, is_spent, decrement, pick, requeue, run_head}
use spring_os.Syscall.{sys_exofork}

abbrev zeroed : Kernel
zeroed = record {
  vm = record {
    npage = 66;
    refs = λ p. if ltb p 60 then 1 else 0;
    free = 60 ∷ 61 ∷ 62 ∷ 63 ∷ 64 ∷ 65 ∷ [];
    words = λ p i. 0;
    flushed = [];
  };
  envs = λ e. env_with 0 0 status_free 0;
  curenv = none;
  env_free_list = [];
  env_sched_list = [];
  asid_bitmap = λ i. 0;
  next_id = 0;
  count = 0;
  kstack_tf = frame;
  base_pgdir = 0;
  cur_pgdir = 0;
}

-- The state that a run gives, if it returns.
abbrev state_of : {S A : Type 0} → Run S A → S → S
state_of (ok a s) other = s
state_of (Run.err e s) other = s
state_of Run.panic other = other

unfoldable initial : Kernel
initial = state_of (env_init 0x1000 0x2000 zeroed) zeroed

initial-Booted : Booted initial
unfolding initial env_init free_envs set_env panic_on on_vm page_alloc inc_ref map_segment round_up
    map_from pa2page ppn ignoring page_insert is_valid test_bit write_words pdx make_pte page2pa
    pte_addr ptx table_pte entry_hi kaddr page_decref page_free page_lookup page_remove pgdir_walk
    read_word tlb_invalidate write_word
initial-Booted =
    initialised {k = zeroed} {l = initial} 0x1000 0x2000
      (record { curenv = refl; free = λ e. refl }) refl

-- A binary without program headers.
abbrev binary : ℕ → ℕ
binary i =
    if i == 0
    then 0x7f
    else if i == 1
    then 69
    else if i == 2
    then 76
    else if i == 3
    then 70
    else if i == 16
    then 2
    else 0

unfoldable first : Kernel
first = state_of (env_create binary 100 1 initial) initial

first-Booted : Booted first
unfolding initial first env_create env_alloc env_init asid_alloc load_icode is_elf half_at word_at
    load_phdrs sched_insert_head mkenvid word_of free_envs set_env panic_on on_vm page_alloc inc_ref
    map_segment round_up map_from pa2page ppn ignoring page_insert is_valid test_bit write_words pdx
    make_pte page2pa pte_addr ptx table_pte entry_hi kaddr page_decref page_free page_lookup
    page_remove pgdir_walk read_word tlb_invalidate write_word
first-Booted = created {k = initial} {l = first} {e = 0} binary 100 1 initial-Booted refl

-- Devices that answer zeros and keep nothing.
abbrev bus : Bus (Unit {0})
bus = record { store = λ pa bytes d. d; load = λ pa len d. (0 ∷ [], d) }

abbrev memory : ℕ → ℕ
memory i = 0

unfoldable at_start : Machine (Unit {0})
at_start = record { kernel = first; user = memory; devices = tt }

-- The timer gives the processor to the first environment, which then calls `sys_exofork`.
unfoldable running : Machine (Unit {0})
running =
    state_of (handle bus 0 0 0 (exception_handlers 0) (entered at_start frame memory tt)) at_start

abbrev call_frame : Trapframe
call_frame = record frame { regs = λ i. if i == 4 then 9 else 0 }

unfoldable forked : Machine (Unit {0})
forked =
    state_of (handle bus 0 0 0 (exception_handlers 8) (entered running call_frame memory tt))
      running

running-Reachable : Reachable bus running
unfolding at_start running initial first is_spent decrement pick requeue run_head env_run schedule
    handle exception_handlers on_kernel env_create env_alloc env_init asid_alloc load_icode is_elf
    half_at word_at load_phdrs sched_insert_head mkenvid word_of free_envs set_env panic_on on_vm
    page_alloc inc_ref map_segment round_up map_from pa2page ppn ignoring page_insert is_valid
    test_bit write_words pdx make_pte page2pa pte_addr ptx table_pte entry_hi kaddr page_decref
    page_free page_lookup page_remove pgdir_walk read_word tlb_invalidate write_word
running-Reachable =
    then_enter (started {s = at_start} first-Booted) (enter frame memory tt 0 0 0 0 refl)

forked-Reachable : Reachable bus forked
unfolding at_start running forked initial first answered call_or_fault invoke returning_value
    current set_bit is_spent decrement pick requeue run_head env_run schedule handle
    exception_handlers on_kernel do_syscall sys_exofork env_create env_alloc env_init asid_alloc
    load_icode is_elf half_at word_at load_phdrs sched_insert_head mkenvid word_of free_envs set_env
    panic_on on_vm page_alloc inc_ref map_segment round_up map_from pa2page ppn ignoring page_insert
    is_valid test_bit write_words pdx make_pte page2pa pte_addr ptx table_pte entry_hi kaddr
    page_decref page_free page_lookup page_remove pgdir_walk read_word tlb_invalidate write_word
forked-Reachable = then_enter running-Reachable (enter call_frame memory tt 0 0 0 8 refl)

Reachable-IsConsistent_example : IsConsistent forked.kernel
Reachable-IsConsistent_example = Reachable-IsConsistent bus forked-Reachable

-- Page 2 is a table, and its last entry maps the page of the exception stack to page 3.
abbrev stack_words : ℕ → ℕ → ℕ
stack_words p i =
    if (p == 1) && (i == 508) then 0x2600 else if (p == 2) && (i == 1023) then 0x3600 else 0

-- The machine of the kernel's examples, with a handler of environment 0 at address 0x400100.
abbrev handling : Machine (Unit {0})
handling = record {
  kernel = record kernel {
    vm = record machine { words = stack_words };
    envs = update kernel.envs 0 (record (kernel.envs 0) { env_user_tlb_mod_entry = 0x400100 });
  };
  user = memory;
  devices = tt;
}

frame-IsFrame : IsFrame frame
unfolding IsFrame frame_word
frame-IsFrame i = ground arith

-- The first and the last byte of the frame lie on that page.
stack-CanStore : (va : ℕ) → pdx va ≡ 508 → ptx va ≡ 1023 → CanStore handling.kernel.vm 1 va
unfolding mapped takes_store is_valid test_bit ppn
stack-CanStore va dir entry = record {
  in_order = record {
    dir_used = refl;
    table_exists = λ h. rw dir (omega arith);
    table_used = λ h. rw dir refl;
    table_apart = λ h. rw dir (λ z. omega (arith, z));
    page_exists = λ h h'. rw (dir, entry) (omega arith);
    page_counted = λ h h'. rw (dir, entry) (omega arith);
  };
  page = 3;
  present = rw (dir, entry) refl;
  writable = rw (dir, entry) refl;
}

first_pdx : pdx 0x7f3fff68 ≡ 508
unfolding pdx
first_pdx = refl

first_ptx : ptx 0x7f3fff68 ≡ 1023
unfolding ptx
first_ptx = refl

last_pdx : pdx 0x7f3fffff ≡ 508
unfolding pdx
last_pdx = refl

last_ptx : ptx 0x7f3fffff ≡ 1023
unfolding ptx
last_ptx = refl

sp_aligned : exception_sp 0 % 4 ≡ 0
unfolding exception_sp
sp_aligned = refl

handle_modified-restored_example :
    Ensures
      (λ _ t.
        (t.kernel.kstack_tf.cp0_epc ≡ 0x400100)
        × Ensures
            (λ v u.
              (v ≡ value 0)
              × SameFrame u.kernel.kstack_tf frame
              × (u.kernel ≡ record handling.kernel { kstack_tf = u.kernel.kstack_tf }))
            (λ _ _. ⊥)
            (invoke bus 0 0 set_trapframe 0
              (t.kernel.kstack_tf.regs 4)
              0
              0
              0
              (entered t call_frame t.user t.devices)))
      (λ _ _. ⊥)
      (handle_modified 1 0 handling)
unfolding exception_sp
handle_modified-restored_example =
    handle_modified-restored bus handling 0 0 0 0 call_frame 0 0 0 refl (omega arith) frame-IsFrame
      sp_aligned (stack-CanStore 0x7f3fff68 first_pdx first_ptx)
      (stack-CanStore 0x7f3fffff last_pdx last_ptx)
