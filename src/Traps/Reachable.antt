-- ===== src/Traps/Reachable.antt =====
-- The states that entries into the kernel lead to (kern/traps.c): a timer interrupt, a TLB
-- exception or a system call, with any registers, user memory and devices.
use spring_os.Base.{
  ℕ, Option, none, some, ◌-◌, ◌+◌, ◌%◌, ◌^◌, ◌≡◌, inl, inr, false, ◌||◌, leb, ◌==◌, length,
  get_elem?, Bool-cases, update, subst,
}
use spring_os.Base.Run.{Run, ok, gives, fails, panics, Safe-bind}
use spring_os.Kernel.{Trapframe, Kernel, get_env}
use spring_os.Env.Booting.{IsZeroed, env_init-IsConsistent}
use spring_os.Env.Creating.{env_create-IsConsistent}
use spring_os.Env.Start.{env_init}
use spring_os.Env.Create.{env_create}
use spring_os.Env.Consistent.{IsConsistent, IsConsistent-beside}
use spring_os.Sched.Consistent.{schedule-IsConsistent}
use spring_os.Syscall.Consistent.{Keeps, Keeps-current, Keeps-vm}
use spring_os.Pmap.{Slot, page_lookup}
use spring_os.Tlbex.{frame_size, do_tlb_mod, do_tlb_refill}
use spring_os.Machine.{Bus, Machine, Answer, value, switched, waiting, stack_word}
use spring_os.Traps.{
  Handler, handle_int, handle_mod, handle_tlb, handle_sys, handle_reserved, exception_handlers,
  syscall_table, set_v0, answered, do_syscall, handle_modified, handle_refill, handle, give_frame,
  fresh_page, reach_page, takes_store,
}
use spring_os.Traps.Consistent.{Holds, Safe-on_kernel, call_or_fault-Holds}

do_tlb_mod-Keeps : (tf : Trapframe) (k : Kernel) → IsConsistent k → Keeps (do_tlb_mod tf k)
unfolding do_tlb_mod get_env
do_tlb_mod-Keeps tf k s = Keeps-current k s _ (λ c cur live.
    elim (Bool-cases ((k.envs c).env_user_tlb_mod_entry == 0)) [
      | inl missing ↦ rw missing panics
      | inr there ↦ rw there (gives s)
    ])

module _ {D : Type 0} where
  set_v0-IsConsistent :
      (v : ℕ) (s : Machine D) → IsConsistent s.kernel → IsConsistent (set_v0 v s).kernel
  unfolding set_v0
  set_v0-IsConsistent v s c =
      IsConsistent-beside s.kernel.vm
        (record s.kernel.kstack_tf { regs = update s.kernel.kstack_tf.regs 2 v }) c

  answered-Holds : {r : Run (Machine D) Answer} → Holds r → Holds (answered r)
  unfolding answered
  answered-Holds (gives {a = value v} {s} c) = gives (set_v0-IsConsistent v s c)
  answered-Holds (gives {a = switched} c) = gives c
  answered-Holds (gives {a = waiting} c) = gives c
  answered-Holds (fails {e = e} {s} c) = gives (set_v0-IsConsistent _ s c)
  answered-Holds panics = panics

  returned_state : {t : Machine D} → Holds {A = Unit {0}} (ok tt t) → IsConsistent t.kernel
  returned_state (gives h) = h

  fresh_page-IsConsistent :
      (found : Option (ℕ × Slot)) (va : ℕ) (s : Machine D)
      → IsConsistent s.kernel
      → IsConsistent (fresh_page found va s).kernel
  unfolding fresh_page
  fresh_page-IsConsistent none va s c = c
  fresh_page-IsConsistent (some x) va s c = c

  reach_page-Holds :
      (rounds asid va : ℕ) (s : Machine D)
      → IsConsistent s.kernel
      → Holds (reach_page rounds asid va s)
  unfolding reach_page
  reach_page-Holds rounds asid va s c =
      Safe-bind (Safe-on_kernel s _ (Keeps-vm s.kernel c (page_lookup s.kernel.cur_pgdir va)))
        (λ found t d.
          Safe-bind
            (Safe-on_kernel t _
              (Keeps-vm t.kernel d (do_tlb_refill rounds va s.kernel.cur_pgdir asid)))
            (λ pte u e. elim (Bool-cases (takes_store pte)) [
              | inl stores ↦ rw stores (gives (fresh_page-IsConsistent found va u e))
              | inr missing ↦ rw missing panics
            ]))

  module _ (bus : Bus D) (left rounds asid : ℕ) (s : Machine D) (c : IsConsistent s.kernel) where
    do_syscall-Holds : Holds (do_syscall bus left rounds s)
    unfolding do_syscall
    do_syscall-Holds =
        let tf = s.kernel.kstack_tf in
        let n = tf.regs 4 in
        let tf' : Trapframe = record tf { cp0_epc = (tf.cp0_epc + 4) % 2 ^ 32 } in
        elim (Bool-cases (leb (2 ^ 31) n || leb (length syscall_table) n)) [
          | inl bad ↦ rw bad (gives (set_v0-IsConsistent _ s c))
          | inr good ↦ rw good (
              answered-Holds (
                call_or_fault-Holds bus left rounds _ (IsConsistent-beside s.kernel.vm tf' c)
                  (tf.regs 5) (tf.regs 6) (tf.regs 7) (stack_word s.user tf 16)
                  (stack_word s.user tf 20) (get_elem? syscall_table n)))
        ]

    handle_modified-Holds : Holds (handle_modified rounds asid s)
    unfolding handle_modified give_frame
    handle_modified-Holds =
        Safe-bind (Safe-on_kernel s (do_tlb_mod s.kernel.kstack_tf) (do_tlb_mod-Keeps _ s.kernel c))
          (λ h t d. elim (Bool-cases (h.address % 4 == 0)) [
            | inr odd ↦ rw odd panics
            | inl even ↦ rw even (
                Safe-bind (reach_page-Holds rounds asid h.address t d) (λ _ u e.
                  Safe-bind (reach_page-Holds rounds asid (h.address + (frame_size - 1)) u e)
                    (λ _ w f. gives (IsConsistent-beside w.kernel.vm h.tf f))))
          ])

    handle-Holds : (h : Handler) → Holds (handle bus left rounds asid h s)
    unfolding handle handle_refill
    handle-Holds handle_int = Safe-on_kernel s _ (schedule-IsConsistent s.kernel false c)
    handle-Holds handle_mod = handle_modified-Holds
    handle-Holds handle_tlb =
        Safe-bind
          (Safe-on_kernel s _ (
            Keeps-vm s.kernel c
              (do_tlb_refill rounds s.kernel.kstack_tf.cp0_badvaddr s.kernel.cur_pgdir asid)))
          (λ _ t d. gives d)
    handle-Holds handle_sys = do_syscall-Holds
    handle-Holds handle_reserved = panics

-- User code runs between two entries: the saved registers, user memory and the devices are any.
abbrev pub entered : {D : Type 0} → Machine D → Trapframe → (ℕ → ℕ) → D → Machine D
entered s tf user devices = record s {
  kernel = record s.kernel { kstack_tf = tf };
  user = user;
  devices = devices;
}

-- One entry that ends without a fault, for an exception with the code `cause`. A list macro that is
-- applied to an environment in the wrong place counts as a fault (see Kernel).
pub data Step {D : Type 0} (bus : Bus D) (s t : Machine D) : Type 0 where
  enter :
      (tf : Trapframe) (user : ℕ → ℕ) (devices : D) (left rounds asid cause : ℕ)
      → handle bus left rounds asid (exception_handlers cause) (entered s tf user devices) ≡ ok tt t
      → Step bus s t

-- The start of the kernel: `env_init`, and then environments made by `env_create`.
pub data Booted : Kernel → Type 0 where
  initialised :
      {k l : Kernel} (pages envs : ℕ) → IsZeroed k → env_init pages envs k ≡ ok tt l → Booted l
  created :
      {k l : Kernel} {e : ℕ} (binary : ℕ → ℕ) (size priority : ℕ)
      → Booted k
      → env_create binary size priority k ≡ ok e l
      → Booted l

-- What entries lead to after the start.
pub data Reachable {D : Type 0} (bus : Bus D) : Machine D → Type 0 where
  started : {s : Machine D} → Booted s.kernel → Reachable bus s
  then_enter : {s t : Machine D} → Reachable bus s → Step bus s t → Reachable bus t

kept : {A : Type 0} {a : A} {l : Kernel} → Keeps (ok a l) → IsConsistent l
kept (gives s) = s

Booted-IsConsistent : {k : Kernel} → Booted k → IsConsistent k
Booted-IsConsistent (initialised {k} pages envs zeroed run) =
    kept (subst Keeps run (env_init-IsConsistent pages envs k zeroed))
Booted-IsConsistent (created {k} binary size priority before run) =
    kept (
      subst Keeps run (env_create-IsConsistent binary size priority k (Booted-IsConsistent before)))

module _ {D : Type 0} (bus : Bus D) where
  Step-IsConsistent :
      (s t : Machine D) → IsConsistent s.kernel → Step bus s t → IsConsistent t.kernel
  Step-IsConsistent s t c (enter tf user devices left rounds asid cause run) = returned_state (
      subst Holds run (
        handle-Holds bus left rounds asid (entered s tf user devices)
          (IsConsistent-beside s.kernel.vm tf c) (exception_handlers cause)))

  -- In every state that the kernel reaches from its start (`env_init` on a kernel in which no
  -- environment is in use, then `env_create` any number of times) by timer interrupts, TLB
  -- exceptions and system calls, in any order, with any registers, user memory and devices, as
  -- long as every entry ends without a fault: the scheduling list holds exactly the runnable
  -- environments and the free list exactly the free ones, each once, the current environment is
  -- not free, and every environment in use has the index that its identifier holds and an
  -- address space identifier that is marked and that no other has. A fault is a failed
  -- assertion, a null pointer, an exhausted bound of the model, or a list macro that inserts an
  -- environment which is on the list or removes one which is not; in C the last goes on with
  -- corrupted links
  pub Reachable-IsConsistent : {s : Machine D} → Reachable bus s → IsConsistent s.kernel
  Reachable-IsConsistent (started b) = Booted-IsConsistent b
  Reachable-IsConsistent (then_enter {s} {t} r step) =
      Step-IsConsistent s t (Reachable-IsConsistent r) step
