-- ===== src/Traps/Consistent.antt =====
-- Every entry into the kernel (kern/traps.c, `do_syscall`) keeps the environments and their lists
-- consistent.
use spring_os.Base.{
  subst, sym, ltb, ℕ, zero, suc, ◌+◌, ◌%◌, ◌^◌, inl, inr, true, ◌||◌, Option, none, some, List, [],
  ◌∷◌, leb, ◌==◌, Bool-cases,
}
use spring_os.Base.Run.{Run, Cmd, put_back, Safe, gives, fails, panics, Safe-bind, Safe-mono}
use spring_os.Mmu.{utop}
use spring_os.Kernel.{Kernel}
use spring_os.Env.{envid2env}
use spring_os.Env.Consistent.{IsLive, IsConsistent}
use spring_os.Sched.Consistent.{schedule-IsConsistent}
use spring_os.Syscall.{is_illegal_va_range, is_illegal_dev_pa_range, sys_yield}
use spring_os.Syscall.Consistent.{Keeps, envid2env-IsLive}
use spring_os.Syscall.Calls.{
  getenvid-Keeps, set_tlb_mod_entry-Keeps, mem_alloc-Keeps, mem_map-Keeps, mem_unmap-Keeps,
  set_trapframe-Keeps,
}
use spring_os.Syscall.Waking.{set_env_status-Keeps, ipc_recv-Keeps, ipc_try_send-Keeps}
use spring_os.Syscall.Forking.{exofork-Keeps}
use spring_os.Teardown.{env_destroy as destroy_env}
use spring_os.Teardown.Consistent.{env_destroy-IsConsistent}
use spring_os.Machine.{
  Bus, Machine, Answer, frame_at, bytes_at, on_kernel, printcharc, print_all, sys_print_cons,
  scancharc, first_byte, console, sys_cgetc, sys_write_dev, sys_read_dev, char_value,
}
use spring_os.Traps.{
  Call, putchar, print_cons, getenvid, yield, env_destroy, set_tlb_mod_entry, mem_alloc, mem_map,
  mem_unmap, exofork, set_env_status, set_trapframe, user_panic, ipc_try_send, ipc_recv, cgetc,
  write_dev, read_dev, returning, returning_value, destroying, invoke, call_or_fault,
}

module _ {D : Type 0} where
  -- The command leaves a consistent kernel, or panics.
  abbrev pub Holds : {A : Type 0} → Run (Machine D) A → Type 0
  Holds r = Safe (λ _ s. IsConsistent s.kernel) (λ s. IsConsistent s.kernel) r

module _ {D A : Type 0} {Q : A → Kernel → Type 0} {E : Kernel → Type 0} (s : Machine D) where
  Safe-kernel_back :
      {r : Run Kernel A}
      → Safe Q E r
      → Safe (λ a t. Q a t.kernel) (λ t. E t.kernel) (put_back (λ k. record s { kernel = k }) r)
  Safe-kernel_back (gives h) = gives h
  Safe-kernel_back (fails h) = fails h
  Safe-kernel_back panics = panics

  pub Safe-on_kernel :
      (m : Cmd Kernel A)
      → Safe Q E (m s.kernel)
      → Safe (λ a t. Q a t.kernel) (λ t. E t.kernel) (on_kernel m s)
  unfolding on_kernel
  Safe-on_kernel m h = Safe-kernel_back h

module _ {D : Type 0} (s : Machine D) (c : IsConsistent s.kernel) where
  returning-Holds :
      {A : Type 0} (a : Answer) (m : Cmd Kernel A) → Keeps (m s.kernel) → Holds (returning a m s)
  unfolding returning
  returning-Holds a m h = Safe-bind (Safe-on_kernel s m h) (λ _ t d. gives d)

  returning_value-Holds : (m : Cmd Kernel ℕ) → Keeps (m s.kernel) → Holds (returning_value m s)
  unfolding returning_value
  returning_value-Holds m h = Safe-bind (Safe-on_kernel s m h) (λ _ t d. gives d)

  destroying-Holds : (envid : ℕ) → Holds (destroying envid s)
  unfolding destroying
  destroying-Holds envid =
      Safe-bind
        (Safe-on_kernel {Q = λ e k. IsLive k e × IsConsistent k} {E = IsConsistent} s
          (envid2env envid true)
          (Safe-mono (envid2env-IsLive s.kernel c envid true)
            (λ e l (live, same).
              (subst (λ k. IsLive k e) (sym same) live, subst IsConsistent (sym same) c))
            (λ l same. subst IsConsistent (sym same) c)))
        (λ e t (live, d).
          Safe-bind (Safe-on_kernel t (destroy_env e) (env_destroy-IsConsistent t.kernel e d live))
            (λ _ u f. gives f))

module _ {D : Type 0} (bus : Bus D) where
  print_all-Holds :
      (xs : List ℕ) (s : Machine D) → IsConsistent s.kernel → Holds (print_all bus xs s)
  unfolding print_all printcharc
  print_all-Holds [] s c = gives c
  print_all-Holds (x ∷ xs) s c = print_all-Holds xs _ c

  print_cons-Holds :
      (at num : ℕ) (s : Machine D) → IsConsistent s.kernel → Holds (sys_print_cons bus at num s)
  unfolding sys_print_cons
  print_cons-Holds at num s c =
      let end = (at + num) % 2 ^ 32 in
      elim (Bool-cases (ltb utop end || leb utop at || ltb end at)) [
        | inl bad ↦ rw bad (fails c)
        | inr good ↦
            rw good (Safe-bind (print_all-Holds (bytes_at s.user at num) s c) (λ _ t d. gives d))
      ]

  cgetc-Holds :
      (rounds : ℕ) (s : Machine D) → IsConsistent s.kernel → Holds (sys_cgetc bus rounds s)
  unfolding sys_cgetc scancharc
  cgetc-Holds zero s c = gives c
  cgetc-Holds (suc rounds) s c =
      let got = bus.load console 1 s.devices in
      elim (Bool-cases (char_value (first_byte got.0) == 0)) [
        | inl nothing ↦ rw nothing (cgetc-Holds rounds (record s { devices = got.1 }) c)
        | inr key ↦ rw key (gives c)
      ]

  module _ (s : Machine D) (c : IsConsistent s.kernel) (va pa len : ℕ) where
    write_dev-Holds : Holds (sys_write_dev bus va pa len s)
    unfolding sys_write_dev
    write_dev-Holds =
        elim (Bool-cases (is_illegal_va_range va len || is_illegal_dev_pa_range pa len)) [
          | inl bad ↦ rw bad (fails c)
          | inr good ↦ rw good (gives c)
        ]

    read_dev-Holds : Holds (sys_read_dev bus va pa len s)
    unfolding sys_read_dev
    read_dev-Holds =
        elim (Bool-cases (is_illegal_va_range va len || is_illegal_dev_pa_range pa len)) [
          | inl bad ↦ rw bad (fails c)
          | inr good ↦ rw good (gives c)
        ]

  module _ (left rounds : ℕ) (s : Machine D) (c : IsConsistent s.kernel) (a b d e f : ℕ) where
    invoke-Holds : (x : Call) → Holds (invoke bus left rounds x a b d e f s)
    unfolding invoke printcharc sys_yield
    invoke-Holds putchar = gives c
    invoke-Holds print_cons = print_cons-Holds a b s c
    invoke-Holds getenvid = returning_value-Holds s c _ (getenvid-Keeps s.kernel c)
    invoke-Holds yield = returning-Holds s c _ _ (schedule-IsConsistent s.kernel true c)
    invoke-Holds env_destroy = destroying-Holds s c a
    invoke-Holds set_tlb_mod_entry =
        returning-Holds s c _ _ (set_tlb_mod_entry-Keeps s.kernel c a b)
    invoke-Holds mem_alloc = returning-Holds s c _ _ (mem_alloc-Keeps s.kernel c a b d)
    invoke-Holds mem_map = returning-Holds s c _ _ (mem_map-Keeps s.kernel c a b d e f)
    invoke-Holds mem_unmap = returning-Holds s c _ _ (mem_unmap-Keeps s.kernel c a b)
    invoke-Holds exofork = returning_value-Holds s c _ (exofork-Keeps s.kernel c)
    invoke-Holds set_env_status = returning-Holds s c _ _ (set_env_status-Keeps s.kernel c a b)
    invoke-Holds set_trapframe =
        returning_value-Holds s c _ (set_trapframe-Keeps s.kernel c a b (frame_at s.user b))
    invoke-Holds user_panic = panics
    invoke-Holds ipc_try_send = returning-Holds s c _ _ (ipc_try_send-Keeps s.kernel c a b d e)
    invoke-Holds ipc_recv = returning-Holds s c _ _ (ipc_recv-Keeps s.kernel c a)
    invoke-Holds cgetc = cgetc-Holds rounds s c
    invoke-Holds write_dev = write_dev-Holds s c a b d
    invoke-Holds read_dev = read_dev-Holds s c a b d

    pub call_or_fault-Holds :
        (o : Option Call) → Holds (call_or_fault bus left rounds o a b d e f s)
    unfolding call_or_fault
    call_or_fault-Holds none = panics
    call_or_fault-Holds (some x) = invoke-Holds x
