-- ===== src/Fd/Dup.antt =====
-- `dup` of user/lib/fd.c.
use spring_os.Base.{
  Option, ℕ, zero, suc, ◌+◌, ◌-◌, ◌/◌, true, not, ◌&&◌, none, some, List, bit_or, bit_and, ◌==◌,
  if◌then◌else◌, update,
}
use spring_os.Base.Run.{
  inval, no_mem, Run, Cmd, ok, err, panic, pure, fail, get, when, ignoring, ◌>>=◌, ◌>>◌,
}
use spring_os.Mmu.{pte_d, pte_library, pdmap}
use spring_os.Fd.{Process, num2fd, fd2data, mem_unmap, fd_lookup, Dev, close}

-- `syscall_mem_map(0, src, 0, dst, perm)`: a table for `dst` takes a page.
unfoldable pub mem_map : (src dst perm : ℕ) → Cmd Process (Unit {0})
mem_map src dst perm p = elim (p.vpt (src / 4096)) [
  | none ↦ err inval p
  | some pte ↦
      if not (p.vpd (dst / pdmap)) && (p.memory == 0)
      then err no_mem p
      else ok tt (record p {
        vpd = update p.vpd (dst / pdmap) true;
        vpt = update p.vpt (dst / 4096) (some (pte.0, perm));
        memory = if p.vpd (dst / pdmap) then p.memory else p.memory - 1;
      })
]

abbrev pub shared_perm : ℕ → ℕ
shared_perm perm = bit_and perm (bit_or pte_d pte_library)

-- A page that is there is mapped at the new place.
unfoldable pub dup_page : Option (ℕ × ℕ) → (src dst : ℕ) → Cmd Process (Unit {0})
dup_page none src dst = pure tt
dup_page (some pte) src dst = mem_map src dst (shared_perm pte.1)

-- The loop of `dup` over the data pages, with the pages left.
unfoldable pub dup_data : ℕ → (ova nva i : ℕ) → Cmd Process (Unit {0})
dup_data zero ova nva i = pure tt
dup_data (suc pages) ova nva i = do
  p ← get
  dup_page (p.vpt ((ova + i) / 4096)) (ova + i) (nva + i)
  dup_data pages ova nva (i + 4096)

unfoldable pub unmap_data : ℕ → (nva i : ℕ) → Cmd Process (Unit {0})
unmap_data zero nva i = pure tt
unmap_data (suc pages) nva i = do mem_unmap (nva + i); unmap_data pages nva (i + 4096)

-- The label `err` of `dup`: the new descriptor and its data are unmapped.
unfoldable pub dup_or_undo : (newfd nva : ℕ) → Run Process (Unit {0}) → Run Process (Unit {0})
dup_or_undo newfd nva (ok a p) = ok tt p
dup_or_undo newfd nva (err e p) = (do mem_unmap newfd; unmap_data (pdmap / 4096) nva 0; fail e) p
dup_or_undo newfd nva panic = panic

-- The data pages, and the descriptor last.
unfoldable pub dup_pages : (oldfd newfd ova nva : ℕ) → Cmd Process (Unit {0})
dup_pages oldfd newfd ova nva = do
  p ← get
  when (p.vpd (ova / pdmap)) (dup_data (pdmap / 4096) ova nva 0)
  p ← get
  elim (p.vpt (oldfd / 4096)) [
    | none ↦ fail inval
    | some pte ↦ mem_map oldfd newfd (shared_perm pte.1)
  ]

unfoldable pub dup : List Dev → (oldfdnum newfdnum : ℕ) → Cmd Process ℕ
dup devtab oldfdnum newfdnum = do
  oldfd ← fd_lookup oldfdnum
  λ p. ignoring (close devtab newfdnum p)
  let newfd = num2fd newfdnum
  let nva = fd2data newfd
  λ p. dup_or_undo newfd nva (dup_pages oldfd newfd (fd2data oldfd) nva p)
  pure newfdnum
