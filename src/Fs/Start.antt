-- ===== src/Fs/Start.antt =====
-- The start of the file system server: `fs_init` of fs/fs.c with `read_super`, `check_write_block`
-- and `read_bitmap`.
pub mod Loading
pub mod Ready
mod Examples
use spring_os.Base.{
  ℕ, zero, suc, ◌+◌, ◌*◌, ◌/◌, ◌%◌, ◌^◌, Bool, true, false, not, ◌&&◌, Option, none, some, leb,
  ◌==◌, if◌then◌else◌, update,
}
use spring_os.Base.Run.{Cmd, ok, pure, get, modify, check, panic_on, ignoring, ◌>>=◌, ◌>>◌}
use spring_os.Fs.{
  Disk, s_nblocks, is_address, block_is_mapped, nbitmap, write_block, block_is_free, read_block,
}

-- FS_MAGIC, and DISKMAX / BY2BLK.
abbrev pub fs_magic : ℕ
fs_magic = 0x68286097

abbrev pub max_blocks : ℕ
max_blocks = 0x40000000 / 4096

-- `super` is set to the page of block 1, whose second word is `s_nblocks`.
unfoldable pub set_super : Cmd Disk (Unit {0})
set_super = modify λ d. record d { super = some (d.words 1 1) }

unfoldable pub read_super : Cmd Disk (Unit {0})
unfolding set_super
read_super = do
  λ d. panic_on (read_block 1 d)
  set_super
  d ← get
  check (d.words 1 0 == fs_magic)
  check (leb (d.words 1 1) max_blocks)

-- `memcpy` of a whole page to another.
unfoldable pub copy_page : ℕ → ℕ → Cmd Disk (Unit {0})
copy_page dst src = modify λ d. record d { words = update d.words dst (d.words src) }

-- The first word of "OOPS!\n", and the last three bytes with the zero at the end.
abbrev pub oops : ℕ
oops = 79 + 79 * 2 ^ 8 + 80 * 2 ^ 16 + 83 * 2 ^ 24

abbrev pub oops_rest : ℕ
oops_rest = 33 + 10 * 2 ^ 8

-- A page after `strcpy`, and `strcmp` with the text.
unfoldable pub smashed : (ℕ → ℕ) → ℕ → ℕ
smashed page i =
    if i == 0 then oops else if i == 1 then oops_rest + page 1 / 2 ^ 24 * 2 ^ 24 else page i

unfoldable pub is_smashed : (ℕ → ℕ) → Bool
is_smashed page = (page 0 == oops) && (page 1 % 2 ^ 24 == oops_rest)

-- `syscall_mem_unmap` of the page of a block.
unfoldable pub drop_page : ℕ → Cmd Disk (Unit {0})
drop_page b =
    modify λ d. record d { cached = update d.cached b false; dirty = update d.dirty b false }

unfoldable pub check_write_block : Cmd Disk (Unit {0})
unfolding copy_page drop_page set_super
check_write_block = do
  modify λ d. record d { super = none }
  λ d. ignoring (read_block 0 d)
  copy_page 0 1
  modify λ d. record d { words = update d.words 1 (smashed (d.words 1)) }
  write_block 1
  mapped ← block_is_mapped 1
  check mapped
  drop_page 1
  mapped ← block_is_mapped 1
  check (not mapped)
  λ d. ignoring (read_block 1 d)
  d ← get
  check (is_smashed (d.words 1))
  copy_page 1 0
  write_block 1
  set_super

-- The loop over the blocks of the bitmap from `b` on; errors of `read_block` are dropped.
unfoldable pub read_blocks : ℕ → ℕ → Cmd Disk (Unit {0})
read_blocks zero b = pure tt
read_blocks (suc left) b = do λ d. ignoring (read_block b d); read_blocks left (b + 1)

unfoldable pub check_used : ℕ → ℕ → Cmd Disk (Unit {0})
check_used zero b = pure tt
check_used (suc left) b = do d ← get; check (not (block_is_free b d)); check_used left (b + 1)

-- `bitmap = diskaddr(2)`: its words are those of the pages from block 2 on.
unfoldable pub set_bitmap : Cmd Disk (Unit {0})
set_bitmap = do
  d ← get
  check (is_address d.super 2)
  modify λ d. record d { bitmap = λ j. d.words (2 + j / 1024) (j % 1024); bitmap_read = true }

unfoldable pub read_bitmap : Cmd Disk (Unit {0})
read_bitmap = do
  n ← s_nblocks
  read_blocks (nbitmap n) 2
  set_bitmap
  check_used 2 0
  check_used (nbitmap n) 2

unfoldable pub fs_init : Cmd Disk (Unit {0})
fs_init = do read_super; check_write_block; read_bitmap
