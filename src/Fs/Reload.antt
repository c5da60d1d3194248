-- ===== src/Fs/Reload.antt =====
-- A block of fs/fs.c that leaves the cache and comes back has the same contents.
use spring_os.Base.{
  ℕ, ◌<◌, ◌≡◌, ◌≢◌, ◌⊎◌, refl, inl, inr, true, false, ◌&&◌, ◌==◌, if◌then◌else◌, update, arith,
  Bool-cases, fun_ext, ◌∙◌,
}
use spring_os.Base.Run.{ok, ◌>>◌, panic_on, when, Ensures, returned}
use spring_os.Fs.{
  Disk, is_address, block_is_mapped, block_is_free, block_is_dirty, holds_bitmap, contents,
  load_block, read_block, unmap_used, unmap_block,
}
use spring_os.Fs.Bitmap.{synced, write_block-synced}
use spring_os.Fs.Cache.{block_is_free-same, paged, map_block-paged}

-- The page of a block is unmapped; its contents are read from the disk into a new page.
abbrev dropped : Disk → ℕ → Disk
dropped d b = record d { cached = update d.cached b false; dirty = update d.dirty b false }

abbrev loaded : Disk → ℕ → Disk
loaded d b = record (paged d b) { words = update (paged d b).words b (d.on_disk b) }

-- A block in use, in the cache, that is not a block of the bitmap; the cache or the disk has its
-- contents.
pub record IsHeld (d : Disk) (b : ℕ) : Type 0 where
  pub address : is_address d.super b ≡ true
  pub used : block_is_free b d ≡ false
  pub mapped : d.cached b ≡ true
  pub other_data : holds_bitmap d b ≡ false
  pub saved : (d.dirty b ≡ true) ⊎ (d.on_disk b ≡ d.words b)

pub record Reloaded (d : Disk) (b : ℕ) (e : Disk) : Type 0 where
  pub mapped : e.cached b ≡ true
  pub clean : e.dirty b ≡ false
  pub page : e.words b ≡ d.words b
  pub saved : e.on_disk b ≡ d.words b
  pub others :
      (c : ℕ)
      → c ≢ b
      → (e.words c ≡ d.words c) × (e.on_disk c ≡ d.on_disk c) × (e.cached c ≡ d.cached c)

pub block_is_mapped-cached :
    (b : ℕ) (d : Disk) → is_address d.super b ≡ true → block_is_mapped b d ≡ ok (d.cached b) d
unfolding block_is_mapped
block_is_mapped-cached b d address = rw address refl

pub block_is_dirty-cached :
    (b : ℕ) (d : Disk)
    → is_address d.super b ≡ true
    → block_is_dirty b d ≡ ok (d.cached b && d.dirty b) d
unfolding block_is_dirty
block_is_dirty-cached b d address = rw (block_is_mapped-cached b d address) refl

module _ (d : Disk) (b : ℕ) (h : IsHeld d b) where
  saved_contents : contents d b ≡ d.words b
  unfolding contents
  saved_contents = fun_ext (λ i. rw h.other_data refl)

  unmap_block-held : unmap_block b d ≡ ok tt (dropped (if d.dirty b then synced d b else d) b)
  unfolding unmap_block unmap_used when
  unmap_block-held =
      let dirty : block_is_dirty b d ≡ ok (d.cached b && d.dirty b) d =
        block_is_dirty-cached b d h.address in
      elim (Bool-cases (d.dirty b)) [
        | inl stale ↦
            rw (block_is_mapped-cached b d h.address, h.mapped, dirty, h.used, h.mapped, stale)
              (rw (write_block-synced b d h.address h.mapped) refl)
        | inr clean ↦
            rw (block_is_mapped-cached b d h.address, h.mapped, dirty, h.used, h.mapped, clean) refl
      ]

read_block-dropped :
    (d : Disk) (b : ℕ)
    → is_address d.super b ≡ true
    → block_is_free b (dropped d b) ≡ false
    → 0 < d.memory
    → read_block b (dropped d b) ≡ ok tt (loaded (dropped d b) b)
unfolding read_block load_block panic_on
read_block-dropped d b address used room =
    let gone : (dropped d b).cached b ≡ false = ground arith in
    let some_page : (d.memory == 0) ≡ false = ground arith in
    let read : (d.bitmap_read && block_is_free b (dropped d b)) ≡ false = rw used (ground arith) in
    rw (address, read, block_is_mapped-cached b (dropped d b) address, gone)
      (rw (map_block-paged b (dropped d b) address, gone, some_page) refl)

reloaded :
    (d x : Disk) (b : ℕ)
    → IsHeld d b
    → x.words ≡ d.words
    → x.cached ≡ d.cached
    → x.on_disk b ≡ d.words b
    → ((c : ℕ) → c ≢ b → x.on_disk c ≡ d.on_disk c)
    → Reloaded d b (loaded (dropped x b) b)
reloaded d x b h words cached saved others = record {
  mapped = ground arith;
  clean = ground arith;
  page = ground arith;
  saved = saved;
  others = λ c ne. (ground arith, others c ne, ground arith);
}

-- A block in use that is in the cache, is not a block of the bitmap, and is dirty or the same on
-- the disk, has the same contents after it is unmapped and read again, if there is memory for a
-- page; the disk then has these contents too, and no other block of the disk or of the cache
-- changes.
pub read_block-unmap_block :
    (d : Disk) (b : ℕ)
    → IsHeld d b
    → 0 < d.memory
    → Ensures (λ _ e. Reloaded d b e) (λ _ _. ⊥) ((unmap_block b >> read_block b) d)
read_block-unmap_block d b h room = elim (Bool-cases (d.dirty b)) [
  | inl stale ↦
      let x : Disk = synced d b in
      let saved : x.on_disk b ≡ d.words b = ground (arith, saved_contents d b h) in
      rw
        (
          unmap_block-held d b h,
          stale,
          read_block-dropped x b h.address (block_is_free-same b d (dropped x b) refl refl ∙ h.used)
              room,
        )
        (returned (reloaded d x b h refl refl saved (λ c ne. ground arith)))
  | inr clean ↦
      let saved : d.on_disk b ≡ d.words b = ground (arith, h.saved) in
      rw
        (
          unmap_block-held d b h,
          clean,
          read_block-dropped d b h.address (block_is_free-same b d (dropped d b) refl refl ∙ h.used)
              room,
        )
        (returned (reloaded d d b h refl refl saved (λ c ne. refl)))
]
