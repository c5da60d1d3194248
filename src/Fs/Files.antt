-- ===== src/Fs/Files.antt =====
-- Files of fs/fs.c: the map from the blocks of a file to blocks of the disk, sizes, and flushing. A
-- `struct File *` is a block and the word in its page where the structure starts.
pub mod Blocks
use spring_os.Base.{
  ℕ, zero, suc, ◌+◌, ◌-◌, ◌*◌, ◌/◌, ◌%◌, ◌^◌, Bool, true, false, not, ◌&&◌, ◌||◌, Option, none,
  some, ltb, leb, ◌==◌, if◌then◌else◌, update,
}
use spring_os.Base.Run.{
  not_found, inval, Run, Cmd, ok, err, panic, pure, fail, get, modify, check, when, and_then,
  ignoring, ◌>>=◌, ◌>>◌,
}
use spring_os.Fs.{
  Disk, is_address, s_nblocks, block_is_dirty, dirty_block, write_block, read_block, free_block,
  alloc_block,
}

abbrev pub Slot : Type 0
Slot = ℕ × ℕ

-- The word at a place of the cache. The server reads pages that it has mapped; the access of another
-- page, which the kernel would fill with zeros, is a panic here.
unfoldable pub read_word : Slot → Cmd Disk ℕ
read_word (b, i) d = if d.cached b then ok (d.words b i) d else panic

unfoldable pub write_word : Slot → ℕ → Cmd Disk (Unit {0})
write_word (b, i) v d =
    if d.cached b
    then ok tt (record d { words = update d.words b (update (d.words b) i v) })
    else panic

abbrev pub by2blk : ℕ
by2blk = 4096

abbrev pub ndirect : ℕ
ndirect = 10

abbrev pub nindirect : ℕ
nindirect = by2blk / 4

-- The fields of `struct File`: 32 words of name, the size, the type, the direct blocks, the indirect
-- block and the directory.
abbrev pub f_size : Slot → Slot
f_size f = (f.0, f.1 + 32)

abbrev pub f_type : Slot → Slot
f_type f = (f.0, f.1 + 33)

abbrev pub f_direct : Slot → ℕ → Slot
f_direct f i = (f.0, f.1 + 34 + i)

abbrev pub f_indirect : Slot → Slot
f_indirect f = (f.0, f.1 + 44)

abbrev pub f_dir : Slot → Slot
f_dir f = (f.0, f.1 + 45)

-- Step 2 of `file_block_walk`: the indirect block, allocated if there is none.
unfoldable pub indirect_block : Slot → Bool → ℕ → Cmd Disk ℕ
indirect_block f alloc bno =
    if not (bno == 0)
    then pure bno
    else if not alloc
    then fail not_found
    else (do r ← alloc_block; write_word (f_indirect f) r; pure r)

unfoldable pub file_block_walk : Slot → ℕ → Bool → Cmd Disk Slot
file_block_walk f filebno alloc =
    if ltb filebno ndirect
    then pure (f_direct f filebno)
    else if ltb filebno nindirect
    then (do
      old ← read_word (f_indirect f)
      bno ← indirect_block f alloc old
      read_block bno
      pure (bno, filebno))
    else fail inval

-- Step 2 of `file_map_block`, for the slot and the block number in it.
unfoldable pub existing_block : Slot → Bool → ℕ → Cmd Disk ℕ
existing_block slot alloc bno =
    if not (bno == 0)
    then pure bno
    else if not alloc
    then fail not_found
    else (do r ← alloc_block; write_word slot r; pure r)

unfoldable pub file_map_block : Slot → ℕ → Bool → Cmd Disk ℕ
file_map_block f filebno alloc = do
  slot ← file_block_walk f filebno alloc
  bno ← read_word slot
  existing_block slot alloc bno

unfoldable pub clear_slot : Slot → ℕ → Cmd Disk (Unit {0})
clear_slot slot bno = when (not (bno == 0)) (do free_block bno; write_word slot 0)

unfoldable pub file_clear_block : Slot → ℕ → Cmd Disk (Unit {0})
file_clear_block f filebno = do
  slot ← file_block_walk f filebno false
  bno ← read_word slot
  clear_slot slot bno

-- The block that holds the `filebno`th block of the file, in the cache.
unfoldable pub file_get_block : Slot → ℕ → Cmd Disk ℕ
file_get_block f filebno = do bno ← file_map_block f filebno true; read_block bno; pure bno

unfoldable pub file_dirty : Slot → ℕ → Cmd Disk (Unit {0})
file_dirty f offset = do bno ← file_map_block f (offset / by2blk) false; dirty_block bno

-- `for (bno = …; bno < old_nblocks; bno++) file_clear_block(f, bno);` with the rounds left.
unfoldable pub clear_blocks : ℕ → Slot → ℕ → Cmd Disk (Unit {0})
clear_blocks zero f bno = pure tt
clear_blocks (suc rounds) f bno = do
  λ d. ignoring (file_clear_block f bno d)
  clear_blocks rounds f (bno + 1)

-- The indirect block is freed.
unfoldable pub drop_indirect : Slot → Cmd Disk (Unit {0})
drop_indirect f = do bno ← read_word (f_indirect f); clear_slot (f_indirect f) bno

unfoldable pub file_truncate : Slot → ℕ → Cmd Disk (Unit {0})
file_truncate f newsize = do
  size ← read_word (f_size f)
  let old_nblocks = size / by2blk + 1
  let new_nblocks = if newsize == 0 then 0 else newsize / by2blk + 1
  clear_blocks (old_nblocks - new_nblocks) f new_nblocks
  when (leb new_nblocks ndirect) (drop_indirect f)
  write_word (f_size f) newsize

-- One round of `file_flush`, after `file_map_block`; a failed call is skipped.
unfoldable pub flush_mapped : Run Disk ℕ → Run Disk (Unit {0})
flush_mapped (ok bno d) = and_then (block_is_dirty bno d) (λ stale. when stale (write_block bno))
flush_mapped (err e d) = ok tt d
flush_mapped panic = panic

unfoldable pub flush_blocks : ℕ → Slot → ℕ → Cmd Disk (Unit {0})
flush_blocks zero f bno = pure tt
flush_blocks (suc rounds) f bno = do
  λ d. flush_mapped (file_map_block f bno false d)
  flush_blocks rounds f (bno + 1)

unfoldable pub file_flush : Slot → Cmd Disk (Unit {0})
file_flush f = do size ← read_word (f_size f); flush_blocks (size / by2blk + 1) f 0

-- The directory pointer, an address in the cache: 0 is null, else the address of the structure.
abbrev pub diskmap : ℕ
diskmap = 0x10000000

unfoldable pub address_of : Slot → ℕ
address_of (b, i) = diskmap + b * by2blk + i * 4

unfoldable pub slot_at : ℕ → Slot
slot_at va = ((va - diskmap) / by2blk, (va - diskmap) % by2blk / 4)

-- `if (f->f_dir) file_flush(f->f_dir);`
unfoldable pub flush_dir : Slot → Cmd Disk (Unit {0})
flush_dir f = do dir ← read_word (f_dir f); when (not (dir == 0)) (file_flush (slot_at dir))

unfoldable pub file_set_size : Slot → ℕ → Cmd Disk (Unit {0})
file_set_size f newsize = do
  size ← read_word (f_size f)
  when (ltb newsize size) (file_truncate f newsize)
  write_word (f_size f) newsize
  flush_dir f

unfoldable pub file_close : Slot → Cmd Disk (Unit {0})
file_close f = do file_flush f; flush_dir f

unfoldable pub sync_blocks : ℕ → ℕ → Cmd Disk (Unit {0})
sync_blocks zero i = pure tt
sync_blocks (suc rounds) i = do
  stale ← block_is_dirty i
  when stale (write_block i)
  sync_blocks rounds (i + 1)

unfoldable pub fs_sync : Cmd Disk (Unit {0})
fs_sync = do n ← s_nblocks; sync_blocks n 0
