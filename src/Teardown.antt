-- ===== src/Teardown.antt =====
-- The end of an environment: `env_free` and `env_destroy` of kern/env.c, and `sys_env_destroy` of
-- kern/syscall_all.c.
pub mod Unlisted
pub mod Consistent
pub mod Examples
use spring_os.Base.{
  ℕ, zero, suc, ◌+◌, ◌-◌, ◌*◌, ◌%◌, ◌^◌, Bool, true, false, not, Option, none, some, List, [], ◌∷◌,
  bit_or, ◌==◌, if◌then◌else◌, has,
}
use spring_os.Base.Run.{Cmd, ok, pure, get, modify, check, when, ◌>>=◌, ◌>>◌}
use spring_os.Mmu.{pdx, ppn, pte_addr, is_valid, utop, uvpt}
use spring_os.Pmap.{
  PageState, read_word, write_word, kaddr, pa2page, page_decref, page_remove, tlb_invalidate,
}
use spring_os.Kernel.{Env, status_free, Kernel, on_vm, set_env, get_env, sched_remove}
use spring_os.Asid.{asid_free}
use spring_os.Env.{envid2env}
use spring_os.Sched.{schedule}

-- The inner loop of `env_free`, for the last entries of a table.
unfoldable pub free_entries : ℕ → ℕ → ℕ → ℕ → ℕ → Cmd PageState (Unit {0})
free_entries zero pgdir asid pdeno pt = pure tt
free_entries (suc left) pgdir asid pdeno pt = do
  pte ← read_word (pt, 1024 - suc left)
  when (is_valid pte)
      (page_remove pgdir asid (bit_or (pdeno * 2 ^ 22 % 2 ^ 32) ((1024 - suc left) * 2 ^ 12)))
  free_entries left pgdir asid pdeno pt

unfoldable pub free_table : ℕ → ℕ → ℕ → ℕ → Cmd PageState (Unit {0})
free_table pgdir asid pdeno pde = do
  pt ← kaddr (ppn (pte_addr pde))
  free_entries 1024 pgdir asid pdeno pt
  write_word (pgdir, pdeno) 0
  pp ← pa2page (pte_addr pde)
  page_decref pp
  tlb_invalidate asid (uvpt + pdeno * 2 ^ 12)

-- The outer loop of `env_free`, for the last user entries of a directory.
unfoldable pub free_tables : ℕ → ℕ → ℕ → Cmd PageState (Unit {0})
free_tables zero pgdir asid = pure tt
free_tables (suc left) pgdir asid = do
  pde ← read_word (pgdir, pdx utop - suc left)
  when (is_valid pde) (free_table pgdir asid (pdx utop - suc left) pde)
  free_tables left pgdir asid

-- LIST_INSERT_HEAD on `env_free_list`; an element that is there already would make a loop: a fault.
unfoldable pub free_insert_head : ℕ → Cmd Kernel (Unit {0})
free_insert_head e = do
  k ← get
  check (not (has e k.env_free_list))
  modify λ k. record k { env_free_list = e ∷ k.env_free_list }

unfoldable pub env_free : ℕ → Cmd Kernel (Unit {0})
env_free e = do
  x ← get_env e
  on_vm (free_tables (pdx utop) x.env_pgdir x.env_asid)
  on_vm (page_decref x.env_pgdir)
  asid_free x.env_asid
  on_vm (tlb_invalidate x.env_asid (uvpt + pdx uvpt * 2 ^ 12))
  set_env e (λ x. record x { env_status = status_free })
  free_insert_head e
  sched_remove e

unfoldable pub is_current : Option ℕ → ℕ → Bool
is_current none e = false
is_current (some c) e = c == e

unfoldable pub env_destroy : ℕ → Cmd Kernel (Unit {0})
env_destroy e = do
  env_free e
  k ← get
  when (is_current k.curenv e) (do modify λ k. record k { curenv = none }; schedule true)

unfoldable pub sys_env_destroy : ℕ → Cmd Kernel (Unit {0})
sys_env_destroy envid = do e ← envid2env envid true; env_destroy e
