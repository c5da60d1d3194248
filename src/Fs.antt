-- ===== src/Fs.antt =====
-- The block bitmap of the file system server: fs/fs.c. A set bit is a free block.
pub mod Bitmap
pub mod Cache
pub mod Reload
pub mod Start
pub mod Files
pub mod Paths
pub mod Examples
use spring_os.Base.{
  ℕ, zero, suc, ◌+◌, ◌-◌, ◌*◌, ◌/◌, ◌%◌, Bool, true, false, not, ◌&&◌, ◌||◌, Option, none, some,
  List, [], ◌∷◌, ltb, leb, ◌==◌, if◌then◌else◌, update,
}
use spring_os.Base.Run.{
  no_disk, no_mem, not_found, Run, Cmd, ok, err, panic, pure, fail, get, modify, check, and_then,
  ◌>>=◌, ◌>>◌, panic_on, when,
}
use spring_os.Base.Bits.{test_bit, set_bit, clear_bit}

-- The state of the server and of its disk. `super` is `super->s_nblocks`, none while the super block
-- is not read; `bitmap` holds the words of the bitmap and `bitmap_read` tells whether its pointer is
-- set. `cached` and `dirty` are the flags PTE_V and PTE_DIRTY of the page of each block, `words` the
-- contents of these pages and `on_disk` those of the disk, by block and word; `memory` counts the
-- pages that `syscall_mem_alloc` can still give. `written` lists the blocks written to the disk, the
-- latest first. The super block and the bitmap stand apart from the other words of the cache.
pub record Disk : Type 0 where
  pub super : Option ℕ
  pub bitmap : ℕ → ℕ
  pub bitmap_read : Bool
  pub cached : ℕ → Bool
  pub dirty : ℕ → Bool
  pub words : ℕ → ℕ → ℕ
  pub on_disk : ℕ → ℕ → ℕ
  pub memory : ℕ
  pub written : List ℕ

-- BIT2BLK, the bits in a block.
abbrev pub bit2blk : ℕ
bit2blk = 4096 * 8

-- `super->s_nblocks`; a null `super` would be dereferenced.
unfoldable pub s_nblocks : Cmd Disk ℕ
s_nblocks d = elim (d.super) [ none ↦ panic | some n ↦ ok n d ]

-- The assertion of `diskaddr`.
unfoldable pub is_address : Option ℕ → ℕ → Bool
is_address none blockno = true
is_address (some n) blockno = ltb blockno n

-- `block_is_mapped`, as a test.
unfoldable pub block_is_mapped : ℕ → Cmd Disk Bool
block_is_mapped blockno = do d ← get; check (is_address d.super blockno); pure (d.cached blockno)

-- The blocks of the bitmap, from block 2 on.
unfoldable pub nbitmap : ℕ → ℕ
nbitmap n = n / bit2blk + (if n % bit2blk == 0 then 0 else 1)

unfoldable pub holds_bitmap : Disk → ℕ → Bool
holds_bitmap d b = elim (d.super) [
  | none ↦ false
  | some n ↦ d.bitmap_read && leb 2 b && ltb b (2 + nbitmap n)
]

-- The words of the page of a block.
unfoldable pub contents : Disk → ℕ → ℕ → ℕ
contents d b i = if holds_bitmap d b then d.bitmap ((b - 2) * 1024 + i) else d.words b i

-- `ide_write` of the sectors of a block from its page.
unfoldable pub write_block : ℕ → Cmd Disk (Unit {0})
write_block blockno = do
  mapped ← block_is_mapped blockno
  check mapped
  modify λ d. record d {
    on_disk = update d.on_disk blockno (contents d blockno);
    written = blockno ∷ d.written;
  }

-- `bitmap[blockno / 32] & (1 << (blockno % 32))`
unfoldable pub free_bit : (ℕ → ℕ) → ℕ → Bool
free_bit bitmap blockno = test_bit (bitmap (blockno / 32)) (blockno % 32)

unfoldable pub set_free : (ℕ → ℕ) → ℕ → ℕ → ℕ
set_free bitmap blockno =
    update bitmap (blockno / 32) (set_bit (bitmap (blockno / 32)) (blockno % 32))

unfoldable pub clear_free : (ℕ → ℕ) → ℕ → ℕ → ℕ
clear_free bitmap blockno =
    update bitmap (blockno / 32) (clear_bit (bitmap (blockno / 32)) (blockno % 32))

-- The source reads through the pointer `bitmap`; the model does not test that it is set.
unfoldable pub block_is_free : ℕ → Disk → Bool
block_is_free blockno d = elim (d.super) [
  | none ↦ false
  | some n ↦ ltb blockno n && free_bit d.bitmap blockno
]

unfoldable pub free_block : ℕ → Cmd Disk (Unit {0})
free_block blockno = do
  n ← s_nblocks
  if (blockno == 0) || leb n blockno
      then pure tt
      else modify (λ d. record d { bitmap = set_free d.bitmap blockno })

-- The loop of `alloc_block_num`, with the rounds left. Like the source it reads through `bitmap`
-- without a test.
unfoldable pub alloc_loop : ℕ → ℕ → Cmd Disk ℕ
alloc_loop zero blockno d = fail no_disk d
alloc_loop (suc rounds) blockno d =
    let rest = alloc_loop rounds (blockno + 1) d in
    if free_bit d.bitmap blockno
    then (do write_block (blockno / bit2blk + 2); pure blockno)
        (record d { bitmap = clear_free d.bitmap blockno })
    else rest

unfoldable pub alloc_block_num : Cmd Disk ℕ
alloc_block_num = do n ← s_nblocks; alloc_loop (n - 3) 3

-- `syscall_mem_alloc(0, diskaddr(blockno), PTE_D)` for a block that is not mapped.
unfoldable pub new_page : ℕ → Cmd Disk (Unit {0})
new_page blockno d =
    if d.memory == 0
    then err no_mem d
    else ok tt (record d {
      memory = d.memory - 1;
      cached = update d.cached blockno true;
      dirty = update d.dirty blockno false;
      words = update d.words blockno (λ i. 0);
    })

unfoldable pub map_block : ℕ → Cmd Disk (Unit {0})
map_block blockno = do
  mapped ← block_is_mapped blockno
  if mapped then pure tt else new_page blockno

unfoldable pub block_is_dirty : ℕ → Cmd Disk Bool
block_is_dirty blockno = do
  d ← get
  mapped ← block_is_mapped blockno
  pure (mapped && d.dirty blockno)

-- A clean page stays where it is when it is mapped again with the flag.
unfoldable pub dirty_block : ℕ → Cmd Disk (Unit {0})
dirty_block blockno = do
  mapped ← block_is_mapped blockno
  if mapped then modify (λ d. record d { dirty = update d.dirty blockno true }) else fail not_found

-- `ide_read` into a page that the kernel could not give is a panic in the kernel.
unfoldable pub load_block : ℕ → Cmd Disk (Unit {0})
load_block blockno = do
  λ d. panic_on (map_block blockno d)
  modify λ d. record d { words = update d.words blockno (d.on_disk blockno) }

unfoldable pub read_block : ℕ → Cmd Disk (Unit {0})
read_block blockno = do
  d ← get
  check (is_address d.super blockno)
  check (not (d.bitmap_read && block_is_free blockno d))
  mapped ← block_is_mapped blockno
  if mapped then pure tt else load_block blockno

-- A client may still hold the page, so it is not counted as memory again.
unfoldable pub unmap_used : ℕ → Cmd Disk (Unit {0})
unmap_used blockno = do
  d ← get
  stale ← block_is_dirty blockno
  when (not (block_is_free blockno d) && stale) (write_block blockno)
  modify
      λ d. record d { cached = update d.cached blockno false; dirty = update d.dirty blockno false }

unfoldable pub unmap_block : ℕ → Cmd Disk (Unit {0})
unmap_block blockno = do mapped ← block_is_mapped blockno; when mapped (unmap_used blockno)

-- If there is no page for the block, it is freed again.
unfoldable pub page_or_free : ℕ → Run Disk (Unit {0}) → Run Disk ℕ
page_or_free bno (ok _ e) = ok bno e
page_or_free bno (err f e) = and_then (free_block bno e) (λ _. fail f)
page_or_free bno panic = panic

unfoldable pub alloc_block : Cmd Disk ℕ
alloc_block = do bno ← alloc_block_num; λ d. page_or_free bno (map_block bno d)
