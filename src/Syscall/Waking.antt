-- ===== src/Syscall/Waking.antt =====
-- The calls of kern/syscall_all.c that block, wake and make environments keep the lists consistent.
use spring_os.Base.{
  ℕ, ◌≡◌, refl, inl, inr, true, false, not, ◌&&◌, ◌||◌, ◌==◌, has, update, arith, Bool-cases,
  if◌then◌else◌, bit_or,
}
use spring_os.Base.Run.{modify, gives, fails, panics, Safe-bind, ◌>>◌}
use spring_os.Mmu.{pte_v}
use spring_os.Pmap.{page_lookup}
use spring_os.Kernel.{
  Env, Kernel, status_runnable, status_not_runnable, set_env, get_env, sched_insert_tail,
  sched_remove,
}
use spring_os.Env.Consistent.{IsLive, IsConsistent, IsConsistent-beside}
use spring_os.Sched.{schedule}
use spring_os.Sched.Consistent.{schedule-IsConsistent}
use spring_os.Syscall.{
  is_illegal_va, deliver, send_page, sys_set_env_status, sys_ipc_recv, sys_ipc_try_send,
}
use spring_os.Syscall.Consistent.{Keeps, Keeps-current, Keeps-envid2env, Keeps-on_vm}
use spring_os.Syscall.Calls.{map_found-Keeps, wake-Keeps, sleep-Keeps}

module _ (k : Kernel) (s : IsConsistent k) where
  set_status-Keeps :
      (e status : ℕ)
      → IsLive k e
      → ((status == status_runnable) || (status == status_not_runnable)) ≡ true
      → Keeps (
          (do
            if status == status_runnable then sched_insert_tail e else sched_remove e
            set_env e (λ x. record x { env_status = status }))
            k)
  unfolding sched_insert_tail sched_remove set_env
  set_status-Keeps e status live valid =
      let x : Env = record (k.envs e) { env_status = status } in
      elim (Bool-cases (status == status_runnable)) [
        | inl up ↦ elim (Bool-cases (has e k.env_sched_list)) [
          | inl inside ↦ rw (up, inside) panics
          | inr outside ↦
              rw (up, outside)
                (gives (wake-Keeps k s e x live (ground (arith, up)) refl refl outside))
        ]
        | inr down ↦ elim (Bool-cases (has e k.env_sched_list)) [
          | inl inside ↦
              rw (down, inside)
                (gives (sleep-Keeps k s e x live (ground (arith, down, valid)) refl refl inside))
          | inr outside ↦ rw (down, outside) panics
        ]
      ]

  pub set_env_status-Keeps : (envid status : ℕ) → Keeps (sys_set_env_status envid status k)
  unfolding sys_set_env_status
  set_env_status-Keeps envid status =
      elim (Bool-cases ((status == status_runnable) || (status == status_not_runnable))) [
        | inl valid ↦
            rw valid
              (Keeps-envid2env k s _ envid true (λ e live. set_status-Keeps e status live valid))
        | inr bad ↦ rw bad (fails s)
      ]

  block-Keeps :
      (c dstva : ℕ)
      → IsLive k c
      → Keeps (
          (do
            set_env c (λ x. record x {
              env_ipc_recving = 1;
              env_ipc_dstva = dstva;
              env_status = status_not_runnable;
            })
            sched_remove c
            modify λ k. record k {
              kstack_tf = record k.kstack_tf { regs = update k.kstack_tf.regs 2 0 };
            }
            schedule true)
            k)
  unfolding sched_remove set_env
  block-Keeps c dstva live =
      let x : Env = record (k.envs c) {
        env_ipc_recving = 1;
        env_ipc_dstva = dstva;
        env_status = status_not_runnable;
      } in
      elim (Bool-cases (has c k.env_sched_list)) [
        | inl inside ↦ rw inside (
            schedule-IsConsistent _ true (
              IsConsistent-beside k.vm (record k.kstack_tf { regs = update k.kstack_tf.regs 2 0 })
                (sleep-Keeps k s c x live refl refl refl inside)))
        | inr outside ↦ rw outside panics
      ]

  pub ipc_recv-Keeps : (dstva : ℕ) → Keeps (sys_ipc_recv dstva k)
  unfolding sys_ipc_recv
  ipc_recv-Keeps dstva = elim (Bool-cases (not (dstva == 0) && is_illegal_va dstva)) [
    | inl bad ↦ rw bad (fails s)
    | inr good ↦ rw good (Keeps-current k s _ (λ c cur live. block-Keeps c dstva live))
  ]

  deliver-Keeps : (e value perm : ℕ) → IsLive k e → Keeps (deliver e value perm k)
  unfolding deliver get_env set_env sched_insert_tail
  deliver-Keeps e value perm live = Keeps-current k s _ (λ c cur _.
      elim (Bool-cases (has e k.env_sched_list)) [
        | inl inside ↦ rw inside panics
        | inr outside ↦ rw outside (
            gives (
              wake-Keeps k s e
                (record (k.envs e) {
                  env_ipc_value = value;
                  env_ipc_from = (k.envs c).env_id;
                  env_ipc_perm = bit_or pte_v perm;
                  env_ipc_recving = 0;
                  env_status = status_runnable;
                })
                live refl refl refl outside))
      ])

  send_page-Keeps : (e srcva perm : ℕ) → Keeps (send_page e srcva perm k)
  unfolding send_page get_env
  send_page-Keeps e srcva perm = elim (Bool-cases (srcva == 0)) [
    | inl no_page ↦ rw no_page (gives s)
    | inr page ↦ rw page (
        Keeps-current k s _ (λ c cur _.
          Keeps-on_vm k s (page_lookup (k.envs c).env_pgdir srcva) _
            (λ found t s'. map_found-Keeps (record k { vm = t }) s' e _ perm found)))
  ]

pub ipc_try_send-Keeps :
    (k : Kernel) (s : IsConsistent k) (envid value srcva perm : ℕ)
    → Keeps (sys_ipc_try_send envid value srcva perm k)
unfolding sys_ipc_try_send get_env
ipc_try_send-Keeps k s envid value srcva perm =
    elim (Bool-cases (not (srcva == 0) && is_illegal_va srcva)) [
      | inl bad ↦ rw bad (fails s)
      | inr good ↦ rw good (
          Keeps-envid2env k s _ envid false (λ e live.
            elim (Bool-cases ((k.envs e).env_ipc_recving == 0)) [
              | inl idle ↦ rw idle (fails s)
              | inr waits ↦ rw waits (
                  Safe-bind (deliver-Keeps k s e value perm live)
                    (λ _ l s'. send_page-Keeps l s' e srcva perm))
            ]))
    ]
