-- ===== src/Fs/Start/Loading.antt =====
-- `read_super` and `check_write_block` of fs/fs.c on a formatted disk.
use spring_os.Base.{
  ℕ, ◌+◌, ◌-◌, ◌/◌, ◌%◌, ◌≤◌, ◌<◌, ◌≡◌, ◌≢◌, refl, ap, inl, inr, true, false, not, ◌&&◌, none, some,
  ◌∷◌, ltb, leb, ◌==◌, update, arith, Bool-cases,
}
use spring_os.Base.Run.{ok, panic_on, ignoring, Ensures, returned}
use spring_os.Fs.{
  Disk, is_address, block_is_mapped, nbitmap, holds_bitmap, contents, write_block, free_bit,
  block_is_free, load_block, read_block,
}
use spring_os.Fs.Cache.{map_block-paged, paged}
use spring_os.Fs.Start.{fs_magic, max_blocks, read_super, smashed, is_smashed, check_write_block}

-- The page of a block is read from the disk.
abbrev pub loaded : Disk → ℕ → Disk
loaded d b = record (paged d b) { words = update (paged d b).words b (d.on_disk b) }

load_block-loaded :
    (b : ℕ) (d : Disk)
    → is_address d.super b ≡ true
    → d.cached b ≡ false
    → d.memory ≢ 0
    → load_block b d ≡ ok tt (loaded d b)
unfolding load_block panic_on
load_block-loaded b d address absent pages =
    let room : (d.memory == 0) ≡ false = ground (arith, pages) in
    rw (map_block-paged b d address, absent, room)

pub read_block-loaded :
    (b : ℕ) (d : Disk)
    → is_address d.super b ≡ true
    → d.bitmap_read ≡ false
    → d.cached b ≡ false
    → d.memory ≢ 0
    → read_block b d ≡ ok tt (loaded d b)
unfolding read_block block_is_mapped
read_block-loaded b d address unread absent pages =
    let held : not (d.bitmap_read && block_is_free b d) ≡ true = ground (arith, unread) in
    let load = load_block-loaded b d address absent pages in
    rw (address, held, absent, address, load)

absent_super : (d : Disk) → d.super ≡ none → (b : ℕ) → is_address d.super b ≡ true
unfolding is_address
absent_super d e b = ground (arith, e)

-- A disk as fsformat leaves it, with the server's cache empty: the magic number and the number of
-- blocks are in the super block, and the reserved blocks and those of the bitmap are not free.
pub record IsFormatted (n : ℕ) (d : Disk) : Type 0 where
  pub super : d.super ≡ none
  pub unread : d.bitmap_read ≡ false
  pub cached : (b : ℕ) → d.cached b ≡ false
  pub magic : d.on_disk 1 0 ≡ fs_magic
  pub size : d.on_disk 1 1 ≡ n
  pub small : n ≤ max_blocks
  pub inside : 2 + nbitmap n ≤ n
  pub used :
      (b : ℕ) → b < 2 + nbitmap n → free_bit (λ j. d.on_disk (2 + j / 1024) (j % 1024)) b ≡ false
  pub pages : 3 + nbitmap n ≤ d.memory

-- The super block is set, the disk is as it was, and the blocks from 2 up to `top` are in the cache.
pub record Warm (n : ℕ) (d : Disk) (top : ℕ) (e : Disk) : Type 0 where
  pub super : e.super ≡ some n
  pub unread : e.bitmap_read ≡ false
  pub on_disk : (b i : ℕ) → e.on_disk b i ≡ d.on_disk b i
  pub cached : (b : ℕ) → 2 ≤ b → e.cached b ≡ ltb b top
  pub words : (b i : ℕ) → 2 ≤ b → b < top → e.words b i ≡ d.on_disk b i
  pub memory : e.memory + top ≡ d.memory - 1

module _ (n : ℕ) (d : Disk) (f : IsFormatted n d) where
  abbrev pub opened : Disk
  opened = record (loaded d 1) { super = some (d.on_disk 1 1) }

  pub read_super-opened : read_super d ≡ ok tt opened
  unfolding read_super panic_on
  read_super-opened =
      let read : read_block 1 d ≡ ok tt (loaded d 1) =
        read_block-loaded 1 d (absent_super d f.super 1) f.unread (f.cached 1)
          (λ h. omega (arith, h, f.pages)) in
      let magic : (d.on_disk 1 0 == fs_magic) ≡ true = ground (arith, f.magic) in
      let size : leb (d.on_disk 1 1) max_blocks ≡ true = ground (arith, f.size, f.small) in
      rw (read, magic, size) refl

  -- `check_write_block` up to where it drops the page of block 1, whose text is on the disk.
  abbrev written : Disk
  written =
      let s : Disk = loaded (record opened { super = none }) 0 in
      record s {
        words = update (update s.words 0 (d.on_disk 1)) 1 (smashed (d.on_disk 1));
        on_disk = update d.on_disk 1 (smashed (d.on_disk 1));
        written = 1 ∷ d.written;
        cached = update s.cached 1 false;
        dirty = update s.dirty 1 false;
      }

  smashed-is_smashed : is_smashed (smashed (d.on_disk 1)) ≡ true
  unfolding is_smashed smashed
  smashed-is_smashed = ground arith

  back_on_disk :
      (b i : ℕ)
      → update (update d.on_disk 1 (smashed (d.on_disk 1))) 1 (d.on_disk 1) b i ≡ d.on_disk b i
  back_on_disk b i = elim (Bool-cases (b == 1)) [
    | inl h ↦ rw h (ap (λ x. d.on_disk x i) (ground (arith, h)))
    | inr h ↦ rw h
  ]

  pub check_write_block-Warm : Ensures (λ _ e. Warm n d 2 e) (λ _ _. ⊥) (check_write_block opened)
  unfolding check_write_block write_block block_is_mapped ignoring contents holds_bitmap is_address
  check_write_block-Warm =
      let first : read_block 0 (record opened { super = none })
          ≡ ok tt (loaded (record opened { super = none }) 0) =
        read_block-loaded 0 (record opened { super = none }) refl f.unread (f.cached 0)
          (λ h. omega (arith, h, f.pages)) in
      let again : read_block 1 written ≡ ok tt (loaded written 1) =
        read_block-loaded 1 written refl f.unread refl (λ h. omega (arith, h, f.pages)) in
      rw (first, again, smashed-is_smashed)
        (returned (record {
          super = ap some f.size;
          unread = f.unread;
          on_disk = back_on_disk;
          cached = λ b ge. ground (arith, f.cached b);
          words = λ b i ge lt. absurd (omega (arith, ge, lt));
          memory = omega (arith, f.pages);
        }))
