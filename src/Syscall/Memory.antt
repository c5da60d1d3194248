-- ===== src/Syscall/Memory.antt =====
-- The memory calls of kern/syscall_all.c.
use spring_os.Base.{ℕ, ◌^◌, ◌<◌, ◌≡◌, refl, true, false, [], ◌∷◌, has, arith}
use spring_os.Base.Run.{
  Error, no_mem, Run, Cmd, ok, put_back, Ensures, returned, failed, Ensures-bind, Ensures-mono,
}
use spring_os.Pmap.{PageState, page_alloc, page_insert}
use spring_os.Pmap.FreeList.{IsValid, Allocated, page_alloc-Allocated}
use spring_os.Pmap.Mapping.{MapsWell, MapsWell-alloc}
use spring_os.Pmap.Insert.{Inserted}
use spring_os.Pmap.Insert.Paths.{page_insert-Inserted}
use spring_os.Kernel.{Kernel, on_vm, get_env}
use spring_os.Env.{envid2env}
use spring_os.Syscall.{is_illegal_va, sys_mem_alloc, map_in}

module _ {A : Type 0} {Q : A → PageState → Type 0} {E : Error → PageState → Type 0} where
  -- The postcondition of an operation on memory, inside the kernel.
  Ensures-put_back :
      (k : Kernel) {r : Run PageState A}
      → Ensures Q E r
      → Ensures
          (λ a l. Q a l.vm × (l ≡ record k { vm = l.vm }))
          (λ e l. E e l.vm × (l ≡ record k { vm = l.vm }))
          (put_back (λ t. record k { vm = t }) r)
  Ensures-put_back k (returned q) = returned (q, refl)
  Ensures-put_back k (failed e) = failed (e, refl)

  Ensures-on_vm :
      (m : Cmd PageState A) (k : Kernel)
      → Ensures Q E (m k.vm)
      → Ensures
          (λ a l. Q a l.vm × (l ≡ record k { vm = l.vm }))
          (λ e l. E e l.vm × (l ≡ record k { vm = l.vm }))
          (on_vm m k)
  unfolding on_vm
  Ensures-on_vm m k h = Ensures-put_back k h

-- What a failed `sys_mem_alloc` leaves: nothing has changed, or the last free page is off the list,
-- with no reference to it.
pub data Lost (s t : PageState) : Type 0 where
  unchanged : t ≡ s → Lost s t
  leaked : (p : ℕ) → s.free ≡ p ∷ [] → t.free ≡ [] → t.refs p ≡ 0 → Lost s t

module _ {k : Kernel} (envid : ℕ) {va perm e : ℕ} (legal : is_illegal_va va ≡ false)
    (named : envid2env envid true k ≡ ok e k) (valid : IsValid k.vm)
    (maps : MapsWell k.vm (k.envs e).env_pgdir va) (flags : perm < 2 ^ 12) where
  -- The second half, after page `p` was taken off the list.
  after_alloc :
      (p : ℕ) (u : PageState)
      → Allocated k.vm p u
      → IsValid u
      → u.refs p ≡ 0
      → has p u.free ≡ false
      → Ensures
          (λ _ l.
            (p : ℕ) × (u : PageState) × Allocated k.vm p u
            × Inserted u (k.envs e).env_pgdir (k.envs e).env_asid p va perm l.vm
            × (l ≡ record k { vm = l.vm }))
          (λ f l. (f ≡ no_mem) × Lost k.vm l.vm × (l ≡ record k { vm = l.vm }))
          (map_in e p va perm (record k { vm = u }))
  unfolding map_in get_env
  after_alloc p u al vu zr out =
      Ensures-mono
        (Ensures-on_vm (page_insert (k.envs e).env_pgdir (k.envs e).env_asid p va perm)
          (record k { vm = u })
          (page_insert-Inserted (k.envs e).env_asid vu (MapsWell-alloc al maps)
            (record { exists = omega (arith, al.exists, al.npage); used = out; flags = flags })))
        (λ _ l (ins, same). (p, u, al, ins, same))
        (λ f l ((nm, empty, _, t), same).
          (nm, leaked p (rw al.head (rw empty)) (rw t empty) (rw t zr), same))

  -- For a legal address, an environment that the caller may name and permissions that are flag
  -- bits (less than 2^12, which the call does not check), with a well-formed free list and
  -- tables in order, `sys_mem_alloc` maps a free page filled with zeros at the address; it fails
  -- only with -E_NO_MEM, and then memory is unchanged, or the last free page is off the list
  -- with no reference to it.
  pub sys_mem_alloc-Inserted :
      Ensures
        (λ _ l.
          (p : ℕ) × (u : PageState) × Allocated k.vm p u
          × Inserted u (k.envs e).env_pgdir (k.envs e).env_asid p va perm l.vm
          × (l ≡ record k { vm = l.vm }))
        (λ f l. (f ≡ no_mem) × Lost k.vm l.vm × (l ≡ record k { vm = l.vm }))
        (sys_mem_alloc envid va perm k)
  unfolding sys_mem_alloc
  sys_mem_alloc-Inserted =
      rw (legal, named)
        (Ensures-bind
          (Ensures-mono (Ensures-on_vm page_alloc k (page_alloc-Allocated valid)) (λ p l q. q)
            (λ f l ((nm, _, t), same). (nm, unchanged t, same)))
          (λ p l ((al, vu, zr, out), same). rw same (after_alloc p l.vm al vu zr out)))
