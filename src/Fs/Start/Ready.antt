-- ===== src/Fs/Start/Ready.antt =====
-- `fs_init` of fs/fs.c on a formatted disk: the super block and the bitmap are in the cache, and the
-- disk is as it was.
use spring_os.Base.{
  ℕ, zero, suc, ◌+◌, ◌*◌, ◌/◌, ◌%◌, ◌≤◌, ◌<◌, ◌≡◌, ◌≢◌, refl, ap, ◌∙◌, inl, inr, true, false, not,
  ◌&&◌, none, some, ltb, ◌==◌, arith, Bool-cases,
}
use spring_os.Base.Bits.{test_bit}
use spring_os.Base.Run.{ok, ignoring, Ensures, returned, Ensures-bind, Ensures-mono}
use spring_os.Fs.{Disk, bit2blk, s_nblocks, is_address, nbitmap, free_bit, block_is_free}
use spring_os.Fs.Bitmap.{IsLoaded}
use spring_os.Fs.Start.{read_blocks, check_used, set_bitmap, read_bitmap, fs_init}
use spring_os.Fs.Start.Loading.{
  loaded, read_block-loaded, IsFormatted, Warm, read_super-opened, check_write_block-Warm,
}

module _ (n : ℕ) (d : Disk) (f : IsFormatted n d) where
  address_in : (e : Disk) (b : ℕ) → e.super ≡ some n → b < n → is_address e.super b ≡ true
  unfolding is_address
  address_in e b super lt = ground (arith, super, lt)

  loaded-Warm :
      (b : ℕ) (e : Disk) → 2 ≤ b → e.memory ≢ 0 → Warm n d b e → Warm n d (b + 1) (loaded e b)
  loaded-Warm b e ge pages w = record {
    super = w.super;
    unread = w.unread;
    on_disk = w.on_disk;
    cached = λ c ge'. ground (arith, w.cached c ge');
    words = λ c i ge' lt. elim (Bool-cases (c == b)) [
      | inl h ↦ rw h (w.on_disk b i ∙ ap (λ x. d.on_disk x i) (ground (arith, h)))
      | inr h ↦ rw h (w.words c i ge' (ground (arith, h, lt)))
    ];
    memory = omega (arith, w.memory, pages);
  }

  read_blocks-Warm :
      (left b : ℕ) (e : Disk)
      → 2 ≤ b
      → b + left ≤ 2 + nbitmap n
      → Warm n d b e
      → Ensures (λ _ l. Warm n d (b + left) l) (λ _ _. ⊥) (read_blocks left b e)
  unfolding read_blocks ignoring
  read_blocks-Warm zero b e ge le w = (let count : b + 0 ≡ b = omega arith in rw count (returned w))
  read_blocks-Warm (suc left) b e ge le w =
      let address : is_address e.super b ≡ true =
        address_in e b w.super (omega (arith, le, f.inside)) in
      let pages : e.memory ≢ 0 = λ h. omega (arith, h, w.memory, f.pages, le) in
      let absent : e.cached b ≡ false = w.cached b ge ∙ ground arith in
      let count : b + suc left ≡ b + 1 + left = omega arith in
      rw (read_block-loaded b e address w.unread absent pages, count)
        (read_blocks-Warm left (b + 1) (loaded e b) (omega (arith, ge)) (omega (arith, le))
          (loaded-Warm b e ge pages w))

  nbitmap_covers : (b : ℕ) → b < n → b / bit2blk < nbitmap n
  unfolding nbitmap
  nbitmap_covers b lt = ground (arith, lt)

  big : 2 < n
  big = omega (arith, f.inside, nbitmap_covers 0 (omega (arith, f.inside)))

  -- The state after the bitmap is set.
  record Complete (e : Disk) : Type 0 where
    super : e.super ≡ some n
    bitmap_read : e.bitmap_read ≡ true
    bitmap : (b : ℕ) → b < 2 + nbitmap n → free_bit e.bitmap b ≡ false
    words : (j : ℕ) → j < nbitmap n * 1024 → e.bitmap j ≡ d.on_disk (2 + j / 1024) (j % 1024)
    on_disk : (b i : ℕ) → e.on_disk b i ≡ d.on_disk b i
    cached : (b : ℕ) → 2 ≤ b → b < 2 + nbitmap n → e.cached b ≡ true

  set_bitmap-Complete :
      (e : Disk)
      → Warm n d (2 + nbitmap n) e
      → Ensures (λ _ l. Complete l) (λ _ _. ⊥) (set_bitmap e)
  unfolding set_bitmap free_bit
  set_bitmap-Complete e w =
      let address : is_address e.super 2 ≡ true = address_in e 2 w.super big in
      rw address (
        returned (record {
          super = w.super;
          bitmap_read = refl;
          bitmap = λ b lt.
              (let place = nbitmap_covers b (omega (arith, lt, f.inside)) in
                ap (λ x. test_bit x (b % 32))
                  (w.words (2 + b / 32 / 1024) (b / 32 % 1024) (omega arith) (omega (arith, place)))
                ∙ f.used b lt);
          words = λ j lt. w.words (2 + j / 1024) (j % 1024) (omega arith) (omega (arith, lt));
          on_disk = w.on_disk;
          cached = λ b ge lt. w.cached b ge ∙ ground (arith, lt);
        }))

  check_used-ok :
      (left b : ℕ) (e : Disk)
      → Complete e
      → b + left ≤ 2 + nbitmap n
      → check_used left b e ≡ ok tt e
  unfolding check_used block_is_free
  check_used-ok zero b e c le = refl
  check_used-ok (suc left) b e c le =
      let test : not (elim (e.super) [ none ↦ false | some n ↦ ltb b n && free_bit e.bitmap b ])
          ≡ true =
        ground (arith, c.super, c.bitmap b (omega (arith, le))) in
      rw test (check_used-ok left (b + 1) e c (omega (arith, le)))

  Complete-IsLoaded : (e : Disk) → Complete e → IsLoaded n e
  Complete-IsLoaded e c = record {
    super = c.super;
    on_disk = λ b lt. omega (arith, nbitmap_covers b lt, f.inside);
    cached = λ b lt. c.cached (b / bit2blk + 2) (omega arith) (omega (arith, nbitmap_covers b lt));
  }

  s_nblocks-some : (e : Disk) → e.super ≡ some n → s_nblocks e ≡ ok n e
  unfolding s_nblocks
  s_nblocks-some e super = ground (arith, super)

  read_bitmap-Complete :
      (e : Disk) → Warm n d 2 e → Ensures (λ _ l. Complete l) (λ _ _. ⊥) (read_bitmap e)
  unfolding read_bitmap
  read_bitmap-Complete e w = rw (s_nblocks-some e w.super) (
      Ensures-bind (read_blocks-Warm (nbitmap n) 2 e (omega arith) (omega arith) w) (λ _ l w.
        Ensures-bind (set_bitmap-Complete l w) (λ _ m c.
          rw (check_used-ok 2 0 m c (omega arith), check_used-ok (nbitmap n) 2 m c (omega arith))
            (returned c))))

  -- On a formatted disk (the magic number and the number of blocks, at most the largest, in the
  -- super block, and blocks 0, 1 and those of the bitmap, which lie on the disk, not free), with
  -- an empty cache and a page for each block of the bitmap and three more, `fs_init` returns:
  -- the super block is set and the blocks of the bitmap are in the cache, as the allocation of
  -- blocks needs them, the bitmap has the words on the disk, and the disk is as it was, block 1
  -- included
  pub fs_init-IsLoaded :
      Ensures
        (λ _ e.
          IsLoaded n e
          × (e.bitmap_read ≡ true)
          × ((j : ℕ) → j < nbitmap n * 1024 → e.bitmap j ≡ d.on_disk (2 + j / 1024) (j % 1024))
          × ((b i : ℕ) → e.on_disk b i ≡ d.on_disk b i))
        (λ _ _. ⊥)
        (fs_init d)
  unfolding fs_init
  fs_init-IsLoaded = rw (read_super-opened n d f) (
      Ensures-bind (check_write_block-Warm n d f) (λ _ e w.
        Ensures-mono (read_bitmap-Complete e w)
          (λ _ l c. (Complete-IsLoaded l c, c.bitmap_read, c.words, c.on_disk)) (λ _ l no. no)))
