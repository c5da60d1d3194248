-- ===== src/Fd.antt =====
-- File descriptors of a user environment: user/lib/fd.c.
pub mod Dup
pub mod Files
pub mod Least
pub mod Copying
pub mod Sharing
pub mod Reading
pub mod Examples
use spring_os.Base.{
  ℕ, zero, suc, ◌+◌, ◌-◌, ◌*◌, ◌/◌, ◌%◌, ◌^◌, Bool, true, false, not, ◌&&◌, ◌||◌, Option, none,
  some, List, [], ◌∷◌, ◌++◌, length, bit_or, bit_and, ltb, leb, ◌==◌, if◌then◌else◌, update,
}
use spring_os.Base.Run.{
  Error, inval, max_open, no_mem, no_disk, Run, Cmd, ok, err, panic, pure, fail, get, modify, check,
  when, ignoring, and_then, ◌>>=◌, ◌>>◌,
}
use spring_os.Mmu.{pte_d, pte_library, pdmap}
use spring_os.Serv.{Filefd}

-- The address space of the environment as the library sees it: `vpd` tells which page tables there
-- are, `vpt` gives the frame and the permissions of a page by its number. `fds` holds the descriptors
-- by their frames (those of files are longer), `bytes` the memory at the addresses of the data, and
-- `memory` counts the pages that the kernel can still give for tables.
pub record Process : Type 0 where
  pub vpd : ℕ → Bool
  pub vpt : ℕ → Option (ℕ × ℕ)
  pub fds : ℕ → Filefd
  pub bytes : ℕ → ℕ
  pub memory : ℕ

abbrev pub maxfd : ℕ
maxfd = 32

abbrev pub filebase : ℕ
filebase = 0x60000000

abbrev pub fdtable : ℕ
fdtable = filebase - pdmap

unfoldable pub num2fd : ℕ → ℕ
num2fd i = (fdtable + i * 4096) % 2 ^ 32

unfoldable pub index2data : ℕ → ℕ
index2data i = (filebase + i * pdmap) % 2 ^ 32

unfoldable pub fd2num : ℕ → ℕ
fd2num fd = (fd + 2 ^ 32 - fdtable) % 2 ^ 32 / 4096

unfoldable pub fd2data : ℕ → ℕ
fd2data fd = index2data (fd2num fd)

unfoldable pub is_mapped : Process → ℕ → Bool
is_mapped p va = elim (p.vpt (va / 4096)) [ none ↦ false | some pte ↦ true ]

-- The descriptor at an address that is mapped.
unfoldable pub fd_at : ℕ → Cmd Process Filefd
fd_at va p = elim (p.vpt (va / 4096)) [ none ↦ panic | some pte ↦ ok (p.fds pte.0) p ]

unfoldable pub set_offset : ℕ → ℕ → Cmd Process (Unit {0})
set_offset va offset p = elim (p.vpt (va / 4096)) [
  | none ↦ panic
  | some pte ↦
      ok tt (record p { fds = update p.fds pte.0 (record (p.fds pte.0) { fd_offset = offset }) })
]

-- The loop of `fd_alloc` from descriptor `fdno` on, with the rounds left.
unfoldable pub fd_from : ℕ → ℕ → Cmd Process ℕ
fd_from zero fdno p = err max_open p
fd_from (suc rounds) fdno p =
    let rest = fd_from rounds (fdno + 1) p in
    if not (p.vpd (num2fd fdno / pdmap))
    then ok (num2fd fdno) p
    else if not (is_mapped p (num2fd fdno))
    then ok (num2fd fdno) p
    else rest

unfoldable pub fd_alloc : Cmd Process ℕ
fd_alloc = fd_from (maxfd - 1) 0

-- `syscall_mem_unmap(0, va)`
unfoldable pub mem_unmap : ℕ → Cmd Process (Unit {0})
mem_unmap va p = ok tt (record p { vpt = update p.vpt (va / 4096) none })

unfoldable pub fd_close : ℕ → Cmd Process (Unit {0})
fd_close fd = mem_unmap fd

-- A number is an `int`, kept as its 32-bit pattern; a negative one is below MAXFD.
unfoldable pub fd_lookup : ℕ → Cmd Process ℕ
fd_lookup fdnum p =
    if leb maxfd fdnum && ltb fdnum (2 ^ 31)
    then err inval p
    else if is_mapped p (num2fd fdnum)
    then ok (num2fd fdnum) p
    else err inval p

pub record Stat : Type 0 where
  pub st_size : ℕ
  pub st_isdir : Bool
  pub st_dev : ℕ

-- An `int` greater than 0, or below it.
unfoldable pub is_positive : ℕ → Bool
is_positive r = ltb 0 r && ltb r (2 ^ 31)

unfoldable pub is_negative : ℕ → Bool
is_negative r = leb (2 ^ 31) r

-- `struct Dev`: the operations take the address of the descriptor; a read gives the bytes, whose
-- number is the `int` that the source returns, and a write the number of bytes written.
pub record Dev : Type 0 where
  pub dev_id : ℕ
  pub dev_read : ℕ → (n offset : ℕ) → Cmd Process (List ℕ)
  pub dev_write : ℕ → List ℕ → (offset : ℕ) → Cmd Process ℕ
  pub dev_close : ℕ → Cmd Process (Unit {0})
  pub dev_stat : ℕ → Stat → Cmd Process Stat

-- O_ACCMODE, O_RDONLY, O_WRONLY
abbrev pub o_accmode : ℕ
o_accmode = 3

abbrev pub o_rdonly : ℕ
o_rdonly = 0

abbrev pub o_wronly : ℕ
o_wronly = 1

module _ (devtab : List Dev) where
  unfoldable pub lookup_from : List Dev → ℕ → Cmd Process Dev
  lookup_from [] dev_id = fail inval
  lookup_from (d ∷ devs) dev_id = if d.dev_id == dev_id then pure d else lookup_from devs dev_id

  unfoldable pub dev_lookup : ℕ → Cmd Process Dev
  dev_lookup dev_id = lookup_from devtab dev_id

  -- The descriptor is closed whatever the device says.
  unfoldable pub close_after : ℕ → Run Process (Unit {0}) → Run Process (Unit {0})
  close_after fd (ok a p) = fd_close fd p
  close_after fd (err e p) = and_then (fd_close fd p) (λ _. fail e)
  close_after fd panic = panic

  unfoldable pub close : ℕ → Cmd Process (Unit {0})
  close fdnum = do
    fd ← fd_lookup fdnum
    f ← fd_at fd
    dev ← dev_lookup f.fd_dev_id
    λ p. close_after fd (dev.dev_close fd p)

  unfoldable pub close_from : ℕ → ℕ → Cmd Process (Unit {0})
  close_from zero i = pure tt
  close_from (suc rounds) i = do λ p. ignoring (close i p); close_from rounds (i + 1)

  unfoldable pub close_all : Cmd Process (Unit {0})
  close_all = close_from maxfd 0

  unfoldable pub read : ℕ → ℕ → Cmd Process (List ℕ)
  read fdnum n = do
    fd ← fd_lookup fdnum
    f ← fd_at fd
    dev ← dev_lookup f.fd_dev_id
    if f.fd_omode == o_wronly then fail inval else (do
      got ← dev.dev_read fd n f.fd_offset
      g ← fd_at fd
      when (is_positive (length got)) (set_offset fd ((g.fd_offset + length got) % 2 ^ 32))
      pure got)

  -- The loop of `readn`, with the bytes read so far and the number still wanted, for so many rounds
  -- at most. If the count of a round is negative as an `int`, that count is returned.
  unfoldable pub readn_from : ℕ → ℕ → List ℕ → ℕ → Cmd Process (List ℕ)
  readn_from zero fdnum so_far n = pure so_far
  readn_from (suc rounds) fdnum so_far n = if n == 0 then pure so_far else (do
    got ← read fdnum n
    if is_negative (length got)
        then pure got
        else if length got == 0
        then pure so_far
        else readn_from rounds fdnum (so_far ++ got) (n - length got))

  -- A round gets a byte at least, or is the last.
  unfoldable pub readn : ℕ → ℕ → Cmd Process (List ℕ)
  readn fdnum n = readn_from n fdnum [] n

  unfoldable pub write : ℕ → List ℕ → Cmd Process ℕ
  write fdnum sent = do
    fd ← fd_lookup fdnum
    f ← fd_at fd
    dev ← dev_lookup f.fd_dev_id
    if bit_and f.fd_omode o_accmode == o_rdonly then fail inval else (do
      r ← dev.dev_write fd sent f.fd_offset
      g ← fd_at fd
      when (is_positive r) (set_offset fd ((g.fd_offset + r) % 2 ^ 32))
      pure r)

  unfoldable pub fstat : ℕ → Cmd Process Stat
  fstat fdnum = do
    fd ← fd_lookup fdnum
    f ← fd_at fd
    dev ← dev_lookup f.fd_dev_id
    dev.dev_stat fd (record { st_size = 0; st_isdir = false; st_dev = dev.dev_id })

unfoldable pub seek : ℕ → ℕ → Cmd Process (Unit {0})
seek fdnum offset = do fd ← fd_lookup fdnum; set_offset fd offset
