-- ===== src/Syscall/Calls.antt =====
-- Each system call of kern/syscall_all.c keeps the environments and their lists consistent, whether
-- it returns a value or an error.
use spring_os.Base.{
  ℕ, ◌≡◌, refl, inl, inr, true, false, ◌||◌, Option, none, some, [], ◌∷◌, ◌++◌, ◌==◌, has, erase,
  update, arith, Bool-cases,
}
use spring_os.Base.Run.{gives, fails}
use spring_os.Pmap.{Slot, page_alloc, page_insert, page_lookup, page_remove}
use spring_os.Kernel.{
  Trapframe, Env, Kernel, status_runnable, status_not_runnable, set_env, get_env,
}
use spring_os.Env.Consistent.{
  IsLive, IsConsistent, IsConsistent-relist, IsConsistent-beside, IsConsistent-touch,
}
use spring_os.Syscall.{
  is_illegal_va, is_illegal_va_range, map_in, map_found, sys_getenvid, sys_set_tlb_mod_entry,
  sys_mem_alloc, sys_mem_map, sys_mem_unmap, sys_set_trapframe,
}
use spring_os.Syscall.Status.{IsScheduled-wake, IsScheduled-sleep}
use spring_os.Syscall.Consistent.{Keeps, Keeps-current, Keeps-envid2env, Keeps-vm, Keeps-on_vm}

module _ (k : Kernel) (s : IsConsistent k) where
  pub getenvid-Keeps : Keeps (sys_getenvid k)
  unfolding sys_getenvid get_env
  getenvid-Keeps = Keeps-current k s _ (λ c cur live. gives s)

  pub set_tlb_mod_entry-Keeps : (envid func : ℕ) → Keeps (sys_set_tlb_mod_entry envid func k)
  unfolding sys_set_tlb_mod_entry set_env
  set_tlb_mod_entry-Keeps envid func = Keeps-envid2env k s _ envid true (λ e live.
      gives (
        IsConsistent-touch s e (record (k.envs e) { env_user_tlb_mod_entry = func }) refl refl
          refl))

  map_in-Keeps : (e pp va perm : ℕ) → Keeps (map_in e pp va perm k)
  unfolding map_in get_env
  map_in-Keeps e pp va perm =
      Keeps-vm k s (page_insert (k.envs e).env_pgdir (k.envs e).env_asid pp va perm)

  pub map_found-Keeps :
      (e va perm : ℕ) (found : Option (ℕ × Slot)) → Keeps (map_found e va perm found k)
  unfolding map_found
  map_found-Keeps e va perm none = fails s
  map_found-Keeps e va perm (some (pp, slot)) = map_in-Keeps e pp va perm

module _ (k : Kernel) (s : IsConsistent k) where
  pub mem_alloc-Keeps : (envid va perm : ℕ) → Keeps (sys_mem_alloc envid va perm k)
  unfolding sys_mem_alloc
  mem_alloc-Keeps envid va perm = elim (Bool-cases (is_illegal_va va)) [
    | inl bad ↦ rw bad (fails s)
    | inr good ↦ rw good (
        Keeps-envid2env k s _ envid true (λ e live.
          Keeps-on_vm k s page_alloc _
            (λ pp t s'. map_in-Keeps (record k { vm = t }) s' e pp va perm)))
  ]

  pub mem_map-Keeps :
      (srcid srcva dstid dstva perm : ℕ) → Keeps (sys_mem_map srcid srcva dstid dstva perm k)
  unfolding sys_mem_map get_env
  mem_map-Keeps srcid srcva dstid dstva perm =
      elim (Bool-cases (is_illegal_va srcva || is_illegal_va dstva)) [
        | inl bad ↦ rw bad (fails s)
        | inr good ↦ rw good (
            Keeps-envid2env k s _ srcid true (λ src _. Keeps-envid2env k s _ dstid true (λ dst _.
              Keeps-on_vm k s (page_lookup (k.envs src).env_pgdir srcva) _
                (λ found t s'. map_found-Keeps (record k { vm = t }) s' dst dstva perm found))))
      ]

  pub mem_unmap-Keeps : (envid va : ℕ) → Keeps (sys_mem_unmap envid va k)
  unfolding sys_mem_unmap get_env
  mem_unmap-Keeps envid va = elim (Bool-cases (is_illegal_va va)) [
    | inl bad ↦ rw bad (fails s)
    | inr good ↦ rw good (
        Keeps-envid2env k s _ envid true
          (λ e live. Keeps-vm k s (page_remove (k.envs e).env_pgdir (k.envs e).env_asid va)))
  ]

  pub set_trapframe-Keeps :
      (envid at : ℕ) (tf : Trapframe) → Keeps (sys_set_trapframe envid at tf k)
  unfolding sys_set_trapframe set_env
  set_trapframe-Keeps envid at tf = elim (Bool-cases (is_illegal_va_range at 152)) [
    | inl bad ↦ rw bad (fails s)
    | inr good ↦ rw good (
        Keeps-envid2env k s _ envid true (λ e live. Keeps-current k s _ (λ c cur live'.
          elim (Bool-cases (e == c)) [
            | inl itself ↦ rw itself (gives (IsConsistent-beside k.vm tf s))
            | inr other ↦
                rw other (
                  gives (IsConsistent-touch s e (record (k.envs e) { env_tf = tf }) refl refl refl))
          ])))
  ]

  -- A live environment that is not on the list is made runnable and joins the tail.
  pub wake-Keeps :
      (e : ℕ) (x : Env)
      → IsLive k e
      → x.env_status ≡ status_runnable
      → x.env_id ≡ (k.envs e).env_id
      → x.env_asid ≡ (k.envs e).env_asid
      → has e k.env_sched_list ≡ false
      → IsConsistent
          (record k { envs = update k.envs e x; env_sched_list = k.env_sched_list ++ e ∷ [] })
  wake-Keeps e x live run id asid out =
      IsConsistent-relist s e x _ live (λ h. omega (arith, h, run)) id asid
        (IsScheduled-wake s.scheduled e x (λ h. ground (arith, s.scheduled.exact e)) run).1

  -- One that is on the list stops being runnable.
  pub sleep-Keeps :
      (e : ℕ) (x : Env)
      → IsLive k e
      → x.env_status ≡ status_not_runnable
      → x.env_id ≡ (k.envs e).env_id
      → x.env_asid ≡ (k.envs e).env_asid
      → has e k.env_sched_list ≡ true
      → IsConsistent
          (record k { envs = update k.envs e x; env_sched_list = erase e k.env_sched_list })
  sleep-Keeps e x live stop id asid inside =
      IsConsistent-relist s e x _ live (λ h. omega (arith, h, stop)) id asid
        (IsScheduled-sleep s.scheduled e x (ground (arith, s.scheduled.exact e))
          (λ h. omega (arith, h, stop))).1
