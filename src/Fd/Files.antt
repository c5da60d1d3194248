-- ===== src/Fd/Files.antt =====
-- The file device: `file_read`, `file_stat` and `read_map` of user/lib/file.c.
use spring_os.Base.{
  ℕ, zero, suc, ◌+◌, ◌-◌, ◌*◌, ◌/◌, ◌%◌, ◌^◌, not, ◌||◌, List, [], ◌∷◌, ltb, leb, ◌==◌,
  if◌then◌else◌,
}
use spring_os.Base.Run.{inval, no_disk, Cmd, pure, fail, get, ◌>>=◌}
use spring_os.Mmu.{pdmap}
use spring_os.Serv.{Filefd}
use spring_os.Fd.{Process, fd2data, is_mapped, fd_at, fd_lookup, Stat}

-- The bytes from an address on.
unfoldable pub bytes_from : ℕ → (ℕ → ℕ) → ℕ → List ℕ
bytes_from zero bytes va = []
bytes_from (suc n) bytes va = bytes va ∷ bytes_from n bytes (va + 1)

-- `f->f_file.f_size`
abbrev pub file_size : Filefd → ℕ
file_size f = f.f_file 32

-- The test on `offset + n` is on 32 bits.
unfoldable pub file_read : ℕ → (n offset : ℕ) → Cmd Process (List ℕ)
file_read fd n offset = do
  f ← fd_at fd
  p ← get
  if ltb (file_size f) offset
      then pure []
      else if ltb (file_size f) ((offset + n) % 2 ^ 32)
      then pure (bytes_from (file_size f - offset) p.bytes (fd2data fd + offset))
      else pure (bytes_from n p.bytes (fd2data fd + offset))

unfoldable pub file_stat : ℕ → Stat → Cmd Process Stat
file_stat fd st = do
  f ← fd_at fd
  pure (record st { st_size = file_size f; st_isdir = f.f_file 33 == 1 })

-- MAXFILESIZE, 1024 blocks
abbrev pub maxfilesize : ℕ
maxfilesize = 1024 * 4096

unfoldable pub read_map : ℕ → (offset : ℕ) → Cmd Process ℕ
read_map fdnum offset = do
  fd ← fd_lookup fdnum
  f ← fd_at fd
  let va = (fd2data fd + offset) % 2 ^ 32
  p ← get
  if not (f.fd_dev_id == 102)
      then fail inval
      else if leb maxfilesize offset
      then fail no_disk
      else if not (p.vpd (va / pdmap)) || not (is_mapped p va)
      then fail no_disk
      else pure va
