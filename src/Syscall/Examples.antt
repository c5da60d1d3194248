-- ===== src/Syscall/Examples.antt =====
-- The theorems about kern/syscall_all.c at a kernel of four environments.
use spring_os.Base.{ℕ, ◌+◌, ◌≤◌, ◌≡◌, ◌↔◌, ◌⊎◌, inl, inr, refl, true, false, none, arith}
use spring_os.Base.Run.{no_mem, inval, ok, err, panic, Ensures}
use spring_os.Mmu.{utop, utemp}
use spring_os.Mmu.Laws.{is_valid-zero}
use spring_os.Pmap.{PageState}
use spring_os.Pmap.FreeList.{Allocated}
use spring_os.Pmap.Insert.{Inserted}
use spring_os.Pmap.Mapping.{mapped}
use spring_os.Pmap.Examples.{machine, machine-IsValid, machine-MapsWell}
use spring_os.Kernel.{status_not_runnable}
use spring_os.Kernel.Examples.{kernel}
use spring_os.Env.{envid2env}
use spring_os.Sched.Examples.{kernel-IsScheduled}
use spring_os.Syscall.{
  is_illegal_va, is_illegal_va_range, sys_mem_alloc, sys_set_env_status, sys_ipc_try_send,
}
use spring_os.Syscall.Ranges.{is_illegal_va_range_iff}
use spring_os.Syscall.Memory.{Lost, sys_mem_alloc-Inserted}
use spring_os.Syscall.Status.{StatusSet, sys_set_env_status-StatusSet, sys_set_env_status_same}
use spring_os.Syscall.Ipc.{
  delivered, IsWaiting, sys_ipc_try_send-delivered, sys_ipc_try_send_unmapped,
}
use spring_os.Sched.Slices.{IsScheduled}

is_illegal_va_range_iff_example :
    (is_illegal_va_range 0x400000 64 ≡ false)
    ↔ ((◌≡◌ {A = ℕ} 64 0) ⊎ ((utemp ≤ 0x400000) × (0x400000 + 64 ≤ utop)))
is_illegal_va_range_iff_example = is_illegal_va_range_iff 0x400000 64 (omega arith) (omega arith)

names_child : envid2env 0x1001 true kernel ≡ ok 1 kernel
unfolding envid2env
names_child = refl

names_waiting : envid2env 0x1802 false kernel ≡ ok 2 kernel
unfolding envid2env
names_waiting = refl

names_child_unchecked : envid2env 0x1001 false kernel ≡ ok 1 kernel
unfolding envid2env
names_child_unchecked = refl

legal_va : is_illegal_va 0x400000 ≡ false
unfolding is_illegal_va
legal_va = refl

sys_mem_alloc-Inserted_example :
    Ensures
      (λ _ l.
        (p : ℕ) × (u : PageState) × Allocated machine p u
        × Inserted u 1 0 p 0x400000 0x400 l.vm
        × (l ≡ record kernel { vm = l.vm }))
      (λ f l. (f ≡ no_mem) × Lost machine l.vm × (l ≡ record kernel { vm = l.vm }))
      (sys_mem_alloc 0x1001 0x400000 0x400 kernel)
sys_mem_alloc-Inserted_example =
    sys_mem_alloc-Inserted 0x1001 legal_va names_child machine-IsValid (machine-MapsWell 0x400000)
      (omega arith)

sys_set_env_status-StatusSet_example :
    Ensures
      (λ _ l. StatusSet kernel 1 status_not_runnable l)
      (λ f l. ⊥)
      (sys_set_env_status 0x1001 status_not_runnable kernel)
sys_set_env_status-StatusSet_example =
    sys_set_env_status-StatusSet 0x1001 kernel-IsScheduled names_child (inr refl) (inl refl)
      (omega arith)

sys_set_env_status_same_example : sys_set_env_status 0x1001 1 kernel ≡ panic
sys_set_env_status_same_example =
    sys_set_env_status_same 0x1001 kernel-IsScheduled names_child (inl refl) refl

waits : IsWaiting kernel 2
waits = record { recving = λ h. omega arith; blocked = λ h. omega arith }

sys_ipc_try_send-delivered_example :
    (sys_ipc_try_send 0x1802 42 0 0 kernel ≡ ok tt (delivered kernel 0 2 42 0))
    × IsScheduled (delivered kernel 0 2 42 0)
sys_ipc_try_send-delivered_example =
    sys_ipc_try_send-delivered 0x1802 42 0 refl names_waiting kernel-IsScheduled waits

not_mapped : mapped machine 1 0x400000 ≡ none
unfolding mapped
not_mapped = rw is_valid-zero

sys_ipc_try_send_unmapped_example :
    sys_ipc_try_send 0x1802 42 0x400000 0 kernel ≡ err inval (delivered kernel 0 2 42 0)
sys_ipc_try_send_unmapped_example =
    sys_ipc_try_send_unmapped 0x1802 42 0 refl names_waiting 0x400000 kernel-IsScheduled waits
      (omega arith) legal_va (omega arith) (machine-MapsWell 0x400000) not_mapped
