-- ===== src/Fs/Bitmap.antt =====
-- `alloc_block_num` of fs/fs.c takes the first free block and writes the bitmap back; `free_block`
-- frees one block.
use spring_os.Base.{
  ℕ, zero, suc, ◌+◌, ◌-◌, ◌/◌, ◌%◌, ◌≤◌, ◌<◌, ◌≡◌, refl, ap, inl, inr, true, false, ◌&&◌, ◌||◌,
  some, ◌∷◌, ltb, leb, ◌==◌, if◌then◌else◌, update, arith, Bool-cases,
}
use spring_os.Base.Run.{no_disk, ok, Ensures, returned, failed}
use spring_os.Base.Bits.{test_bit-set_bit, test_bit-clear_bit}
use spring_os.Fs.{
  contents, Disk, bit2blk, s_nblocks, is_address, block_is_mapped, write_block, free_bit, set_free,
  clear_free, block_is_free, free_block, alloc_loop, alloc_block_num,
}

block_eq : (i j : ℕ) → i / 32 ≡ j / 32 → i % 32 ≡ j % 32 → i ≡ j
block_eq i j p q = omega arith

free_bit-set :
    (b : ℕ → ℕ) (i j : ℕ) → free_bit (set_free b i) j ≡ (if i == j then true else free_bit b j)
unfolding free_bit set_free
free_bit-set b i j =
    ground (arith, block_eq i j, test_bit-set_bit (b (i / 32)) (i % 32) (j % 32), ap b)

free_bit-clear :
    (b : ℕ → ℕ) (i j : ℕ) → free_bit (clear_free b i) j ≡ (if i == j then false else free_bit b j)
unfolding free_bit clear_free
free_bit-clear b i j = ground (
  arith,
  block_eq i j,
  test_bit-clear_bit (b (i / 32)) (i % 32) (j % 32) (omega arith) (omega arith),
)

-- The super block is read, and the blocks of the bitmap are blocks of the disk and cached.
pub record IsLoaded (n : ℕ) (d : Disk) : Type 0 where
  pub super : d.super ≡ some n
  pub on_disk : (b : ℕ) → b < n → b / bit2blk + 2 < n
  pub cached : (b : ℕ) → b < n → d.cached (b / bit2blk + 2) ≡ true

-- The page of a block is written to the disk.
abbrev pub synced : Disk → ℕ → Disk
synced d b = record d { on_disk = update d.on_disk b (contents d b); written = b ∷ d.written }

pub write_block-synced :
    (b : ℕ) (d : Disk)
    → is_address d.super b ≡ true
    → d.cached b ≡ true
    → write_block b d ≡ ok tt (synced d b)
unfolding write_block block_is_mapped
write_block-synced b d address mapped = rw (address, mapped) refl

-- What a successful `alloc_block_num` does.
pub record Taken (n : ℕ) (d : Disk) (b : ℕ) (e : Disk) : Type 0 where
  pub data_block : 3 ≤ b
  pub inside : b < n
  pub was_free : block_is_free b d ≡ true
  pub first : (c : ℕ) → 3 ≤ c → c < b → block_is_free c d ≡ false
  pub now_used : (c : ℕ) → block_is_free c e ≡ (if b == c then false else block_is_free c d)
  pub written_back : e ≡ synced (record d { bitmap = e.bitmap }) (b / bit2blk + 2)

module _ (n : ℕ) (d : Disk) (l : IsLoaded n d) where
  block_is_free-loaded : (b : ℕ) → block_is_free b d ≡ (ltb b n && free_bit d.bitmap b)
  unfolding block_is_free
  block_is_free-loaded b = rw l.super

  s_nblocks-loaded : s_nblocks d ≡ ok n d
  unfolding s_nblocks
  s_nblocks-loaded = ground (arith, l.super)

  is_address-loaded : (b : ℕ) → b < n → is_address d.super (b / bit2blk + 2) ≡ true
  unfolding is_address
  is_address-loaded b lt =
      let test : ltb (b / bit2blk + 2) n ≡ true = ground (arith, l.on_disk b lt) in
      rw (l.super, test)

  found :
      (b : ℕ)
      → 3 ≤ b
      → b < n
      → free_bit d.bitmap b ≡ true
      → ((c : ℕ) → 3 ≤ c → c < b → free_bit d.bitmap c ≡ false)
      → Taken n d b (synced (record d { bitmap = clear_free d.bitmap b }) (b / bit2blk + 2))
  unfolding block_is_free
  found b ge lt free below = record {
    data_block = ge;
    inside = lt;
    was_free = rw l.super (ground arith);
    first = λ c c3 cb. rw l.super (ground (arith, below c c3 cb));
    now_used = λ c. rw l.super (ground (arith, free_bit-clear d.bitmap b c));
    written_back = refl;
  }

  alloc_loop-Taken :
      (rounds b : ℕ)
      → 3 ≤ b
      → (b + rounds ≡ n)
      → ((c : ℕ) → 3 ≤ c → c < b → free_bit d.bitmap c ≡ false)
      → Ensures
          (Taken n d)
          (λ f e. (f ≡ no_disk) × (e ≡ d) × ((c : ℕ) → 3 ≤ c → c < n → block_is_free c d ≡ false))
          (alloc_loop rounds b d)
  unfolding alloc_loop
  alloc_loop-Taken zero b ge size below =
      failed (refl, refl, λ c c3 cn. rw (block_is_free-loaded c) (ground (arith, below c c3)))
  alloc_loop-Taken (suc rounds) b ge size below = elim (Bool-cases (free_bit d.bitmap b)) [
    | inl free ↦
        let e : Disk = record d { bitmap = clear_free d.bitmap b } in
        let saved : write_block (b / bit2blk + 2) e ≡ ok tt (synced e (b / bit2blk + 2)) =
          write_block-synced (b / bit2blk + 2) e (is_address-loaded b (omega arith))
            (l.cached b (omega arith)) in
        rw (free, saved) (returned (found b ge (omega arith) free below))
    | inr used ↦ rw used (
        alloc_loop-Taken rounds (b + 1) (omega arith) (omega arith)
          (λ c c3 cb. ground (arith, below c)))
  ]

  block_is_free-set :
      (b c : ℕ)
      → ltb 0 b ≡ true
      → ltb b n ≡ true
      → block_is_free c (record d { bitmap = set_free d.bitmap b })
        ≡ (if (b == c) && ltb 0 b && ltb b n then true else block_is_free c d)
  unfolding block_is_free
  block_is_free-set b c pos lt = rw (l.super, pos, lt) (ground (arith, free_bit-set d.bitmap b c))

  -- With the super block read, at least three blocks, and the blocks of the bitmap on the disk
  -- and cached, `alloc_block_num` returns the first free block from 3 on, clears its bit and no
  -- other, writes its bitmap block to the disk and changes nothing else; it fails with
  -- -E_NO_DISK only if no block from 3 on is free, and changes nothing then.
  pub alloc_block_num-Taken :
      3 ≤ n
      → Ensures
          (Taken n d)
          (λ f e. (f ≡ no_disk) × (e ≡ d) × ((c : ℕ) → 3 ≤ c → c < n → block_is_free c d ≡ false))
          (alloc_block_num d)
  unfolding alloc_block_num
  alloc_block_num-Taken ge =
      rw s_nblocks-loaded
        (alloc_loop-Taken (n - 3) 3 (omega arith) (omega arith) (λ c c3 cb. absurd (omega arith)))

  -- With the super block read, and the blocks of the bitmap on the disk and cached, `free_block`
  -- makes its block free if it is not 0 and on the disk, and leaves every other block and
  -- everything but the bitmap alone.
  pub free_block-freed :
      (b : ℕ)
      → Ensures
          (λ _ e.
            ((c : ℕ)
              → block_is_free c e
                ≡ (if (b == c) && ltb 0 b && ltb b n then true else block_is_free c d))
            × (e ≡ record d { bitmap = e.bitmap }))
          (λ _ _. ⊥)
          (free_block b d)
  unfolding free_block
  free_block-freed b = elim (Bool-cases ((b == 0) || leb n b)) [
    | inl ignored ↦ rw (s_nblocks-loaded, ignored) (returned (λ c. ground arith, refl))
    | inr freed ↦
        rw (s_nblocks-loaded, freed)
          (returned (λ c. block_is_free-set b c (ground arith) (ground arith), refl))
  ]
