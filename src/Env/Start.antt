-- ===== src/Env/Start.antt =====
-- `map_segment` and `env_init` of kern/env.c.
use spring_os.Base.{ℕ, zero, suc, ◌+◌, ◌*◌, ◌/◌, ◌%◌, [], ◌∷◌, bit_or, ◌==◌}
use spring_os.Base.Run.{Cmd, pure, get, modify, check, panic_on, ignoring, ◌>>=◌, ◌>>◌}
use spring_os.Mmu.{pte_v, pte_g, round_up, upages, uenvs}
use spring_os.Pmap.{PageState, kaddr, pa2page, page_alloc, page_insert, inc_ref}
use spring_os.Kernel.{Kernel, status_free, on_vm, set_env}
use spring_os.Env.{nenv}

-- The loop of `map_segment` from `i` on, with the pages left; errors of `page_insert` are dropped.
unfoldable pub map_from : ℕ → (pgdir asid pa va perm i : ℕ) → Cmd PageState (Unit {0})
map_from zero pgdir asid pa va perm i = pure tt
map_from (suc left) pgdir asid pa va perm i = do
  pp ← pa2page (pa + i)
  λ s. ignoring (page_insert pgdir asid pp (va + i) (bit_or perm pte_v) s)
  map_from left pgdir asid pa va perm (i + 4096)

unfoldable pub map_segment : (pgdir asid pa va size perm : ℕ) → Cmd PageState (Unit {0})
map_segment pgdir asid pa va size perm = do
  check (pa % 4096 == 0)
  check (va % 4096 == 0)
  check (size % 4096 == 0)
  map_from (size / 4096) pgdir asid pa va perm 0

-- The loop of `env_init` down from the environment before `left`.
unfoldable pub free_envs : ℕ → Cmd Kernel (Unit {0})
free_envs zero = pure tt
free_envs (suc i) = do
  set_env i (λ x. record x { env_status = status_free })
  modify λ k. record k { env_free_list = i ∷ k.env_free_list }
  free_envs i

-- The sizes of `struct Page` and `struct Env`; `pages` and `envs` are the physical addresses of the
-- arrays.
unfoldable pub env_init : (pages envs : ℕ) → Cmd Kernel (Unit {0})
env_init pages envs = do
  modify λ k. record k { env_free_list = []; env_sched_list = [] }
  free_envs nenv
  p ← (λ k. panic_on (on_vm page_alloc k))
  on_vm (inc_ref p)
  d ← on_vm (kaddr p)
  modify λ k. record k { base_pgdir = d }
  k ← get
  on_vm (map_segment d 0 pages upages (round_up (k.vm.npage * 12) 4096) pte_g)
  on_vm (map_segment d 0 envs uenvs (round_up (nenv * 220) 4096) pte_g)
