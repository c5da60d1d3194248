-- ===== src/Fs/Examples.antt =====
-- A disk of six blocks, of which 4 and 5 are free and the others in the cache, for fs/fs.c.
use spring_os.Base.{
  ℕ, ◌≤◌, ◌<◌, ◌≡◌, refl, some, true, false, [], ltb, ◌==◌, if◌then◌else◌, none, inr, ◌∷◌, arith,
}
use spring_os.Base.Run.{no_disk, Ensures, ◌>>◌}
use spring_os.Base.Bits.{test_bit}
use spring_os.Fs.{
  is_address, free_bit, holds_bitmap, nbitmap, alloc_block, unmap_block, read_block, Disk,
  block_is_free, alloc_block_num,
}
use spring_os.Fs.Bitmap.{IsLoaded, Taken, alloc_block_num-Taken}
use spring_os.Fs.Cache.{Allocated, Refused, alloc_block-Allocated}
use spring_os.Fs.Reload.{IsHeld, Reloaded, read_block-unmap_block}
use spring_os.Fs.Paths.{root, walk_path}
use spring_os.Fs.Paths.Walking.{elements, pieces, drop_empty, add_front, resolve, walk_path-resolve}

abbrev pub disk : Disk
disk = record {
  super = some 6;
  bitmap = λ i. if i == 0 then 48 else 0;
  bitmap_read = true;
  cached = λ b. ltb b 4;
  dirty = λ b. false;
  words = λ b i. 0;
  on_disk = λ b i. 0;
  memory = 5;
  written = [];
}

disk-IsLoaded : IsLoaded 6 disk
disk-IsLoaded = record { super = refl; on_disk = λ b h. omega arith; cached = λ b h. ground arith }

alloc_block_num-Taken_example :
    Ensures
      (Taken 6 disk)
      (λ f e. (f ≡ no_disk) × (e ≡ disk) × ((c : ℕ) → 3 ≤ c → c < 6 → block_is_free c disk ≡ false))
      (alloc_block_num disk)
alloc_block_num-Taken_example = alloc_block_num-Taken 6 disk disk-IsLoaded (omega arith)

alloc_block-Allocated_example : Ensures (Allocated 6 disk) (Refused 6 disk) (alloc_block disk)
alloc_block-Allocated_example = alloc_block-Allocated 6 disk disk-IsLoaded (omega arith)

block_3-IsHeld : IsHeld disk 3
unfolding is_address block_is_free free_bit test_bit holds_bitmap nbitmap
block_3-IsHeld = record {
  address = refl;
  used = refl;
  mapped = refl;
  other_data = refl;
  saved = inr refl;
}

read_block-unmap_block_example :
    Ensures (λ _ e. Reloaded disk 3 e) (λ _ _. ⊥) ((unmap_block 3 >> read_block 3) disk)
read_block-unmap_block_example = read_block-unmap_block disk 3 block_3-IsHeld (omega arith)

-- "/a//b/"
walk_path-resolve_example :
    walk_path (47 ∷ 97 ∷ 47 ∷ 47 ∷ 98 ∷ 47 ∷ [])
    ≡ resolve root none (elements (47 ∷ 97 ∷ 47 ∷ 47 ∷ 98 ∷ 47 ∷ []))
walk_path-resolve_example = walk_path-resolve (47 ∷ 97 ∷ 47 ∷ 47 ∷ 98 ∷ 47 ∷ [])

two_elements : elements (47 ∷ 97 ∷ 47 ∷ 47 ∷ 98 ∷ 47 ∷ []) ≡ (97 ∷ []) ∷ (98 ∷ []) ∷ []
unfolding elements pieces drop_empty add_front
two_elements = refl
