-- ===== src/Fs/Cache.antt =====
-- Blocks in the cache of fs/fs.c: allocation with a page, and writing back and loading again.
use spring_os.Base.{
  ℕ, ◌+◌, ◌-◌, ◌/◌, ◌≤◌, ◌<◌, ◌≡◌, ◌⊎◌, refl, ap, sym, ◌∙◌, inl, inr, Bool, true, false, ltb, ◌==◌,
  if◌then◌else◌, update, arith, Bool-cases,
}
use spring_os.Base.Run.{
  Error, no_disk, no_mem, ok, err, and_then, Ensures, returned, failed, Ensures-bind, Ensures-mono,
}
use spring_os.Fs.{
  Disk, bit2blk, is_address, block_is_mapped, block_is_free, new_page, map_block, page_or_free,
  free_block, alloc_block,
}
use spring_os.Fs.Bitmap.{IsLoaded, Taken, alloc_block_num-Taken, free_block-freed}

pub block_is_free-same :
    (b : ℕ) (d e : Disk)
    → e.super ≡ d.super
    → e.bitmap ≡ d.bitmap
    → block_is_free b e ≡ block_is_free b d
unfolding block_is_free
block_is_free-same b d e s m = ground (arith, s, m)

-- A block gets a page filled with zeros.
abbrev pub paged : Disk → ℕ → Disk
paged d b = record d {
  memory = d.memory - 1;
  cached = update d.cached b true;
  dirty = update d.dirty b false;
  words = update d.words b (λ i. 0);
}

-- What `map_block` makes of a block on the disk.
pub map_block-paged :
    (b : ℕ) (d : Disk)
    → is_address d.super b ≡ true
    → map_block b d
      ≡ (if d.cached b then ok tt d else if d.memory == 0 then err no_mem d else ok tt (paged d b))
unfolding map_block block_is_mapped new_page
map_block-paged b d address = rw address (ground arith)

-- A block taken from the bitmap, with its page. The page of a block that is still in the cache is
-- not cleared.
pub record Allocated (n : ℕ) (d : Disk) (b : ℕ) (e : Disk) : Type 0 where
  pub marked : Disk
  pub taken : Taken n d b marked
  pub mapped : e.cached b ≡ true
  pub page : (i : ℕ) → e.words b i ≡ (if d.cached b then d.words b i else 0)
  pub rest : e ≡ (if d.cached b then marked else paged marked b)

-- A failed allocation leaves every block as free as before, and the cache as it was.
pub record Refused (n : ℕ) (d : Disk) (f : Error) (e : Disk) : Type 0 where
  pub reason :
      ((f ≡ no_disk) × ((c : ℕ) → 3 ≤ c → c < n → block_is_free c d ≡ false))
      ⊎ ((f ≡ no_mem) × (d.memory ≡ 0))
  pub free : (c : ℕ) → block_is_free c e ≡ block_is_free c d
  pub words : e.words ≡ d.words
  pub cached : e.cached ≡ d.cached

module _ {n : ℕ} {d : Disk} {b : ℕ} {e : Disk} (t : Taken n d b e) where
  pub Taken-super : e.super ≡ d.super
  Taken-super = ap (λ (x : Disk). x.super) t.written_back

  pub Taken-cached : e.cached ≡ d.cached
  Taken-cached = ap (λ (x : Disk). x.cached) t.written_back

  pub Taken-words : e.words ≡ d.words
  Taken-words = ap (λ (x : Disk). x.words) t.written_back

  Taken-memory : e.memory ≡ d.memory
  Taken-memory = ap (λ (x : Disk). x.memory) t.written_back

-- What an allocation leaves alone: the pages of the cache and the state of the other blocks.
module _ {n : ℕ} {d : Disk} {b : ℕ} {e : Disk} (a : Allocated n d b e) where
  pub Allocated-super : e.super ≡ d.super
  Allocated-super = elim (Bool-cases (d.cached b)) [
    | inl old ↦
        let same : e ≡ a.marked = a.rest ∙ rw old refl in
        ap (λ (x : Disk). x.super) same ∙ Taken-super a.taken
    | inr new ↦
        let same : e ≡ paged a.marked b = a.rest ∙ rw new refl in
        ap (λ (x : Disk). x.super) same ∙ Taken-super a.taken
  ]

  pub Allocated-free : (c : ℕ) → block_is_free c e ≡ (if b == c then false else block_is_free c d)
  Allocated-free c = elim (Bool-cases (d.cached b)) [
    | inl old ↦
        let same : e ≡ a.marked = a.rest ∙ rw old refl in
        ap (block_is_free c) same ∙ a.taken.now_used c
    | inr new ↦
        let same : e ≡ paged a.marked b = a.rest ∙ rw new refl in
        ap (block_is_free c) same
        ∙ block_is_free-same c a.marked (paged a.marked b) refl refl
        ∙ a.taken.now_used c
  ]

  pub Allocated-kept :
      (c : ℕ) → d.cached c ≡ true → (e.cached c ≡ true) × ((i : ℕ) → e.words c i ≡ d.words c i)
  Allocated-kept c page = elim (Bool-cases (d.cached b)) [
    | inl old ↦
        let same : e ≡ a.marked = a.rest ∙ rw old refl in
        (
          ap (λ (x : Disk). x.cached c) same
              ∙ ap (λ (f : ℕ → Bool). f c) (Taken-cached a.taken)
              ∙ page,
          λ i.
              ap (λ (x : Disk). x.words c i) same
              ∙ ap (λ (f : ℕ → ℕ → ℕ). f c i) (Taken-words a.taken),
        )
    | inr new ↦
        let same : e ≡ paged a.marked b = a.rest ∙ rw new refl in
        let other : (c == b) ≡ false = ground arith in
        (
          ap (λ (x : Disk). x.cached c) same
              ∙ rw other (ap (λ (f : ℕ → Bool). f c) (Taken-cached a.taken) ∙ page),
          λ i.
              ap (λ (x : Disk). x.words c i) same
              ∙ rw other (ap (λ (f : ℕ → ℕ → ℕ). f c i) (Taken-words a.taken)),
        )
  ]

module _ (n : ℕ) (d : Disk) (l : IsLoaded n d) where
  module _ (b : ℕ) (e : Disk) (t : Taken n d b e) where
    pub Taken-IsLoaded : IsLoaded n e
    Taken-IsLoaded = record {
      super = Taken-super t ∙ l.super;
      on_disk = l.on_disk;
      cached = λ c h. ap (λ (f : ℕ → Bool). f (c / bit2blk + 2)) (Taken-cached t) ∙ l.cached c h;
    }

    is_address-taken : is_address e.super b ≡ true
    unfolding is_address
    is_address-taken =
        let test : ltb b n ≡ true = ground (arith, t.inside) in rw (Taken-super t, l.super) test

    -- The block goes back to the bitmap, if there is no page for it.
    Refused-memory :
        d.memory ≡ 0
        → Ensures (Allocated n d) (Refused n d) (and_then (free_block b e) (λ _. err no_mem))
    Refused-memory empty =
        Ensures-bind
          (Ensures-mono (free_block-freed n e Taken-IsLoaded b) (λ u x q. q) (λ f x q. absurd q))
          (λ u x (free, same). failed (record {
            reason = inr (refl, empty);
            free = λ c. ground (arith, free c, t.now_used c, t.was_free, t.inside, t.data_block);
            words = ap (λ (y : Disk). y.words) same ∙ Taken-words t;
            cached = ap (λ (y : Disk). y.cached) same ∙ Taken-cached t;
          }))

    cached_at : e.cached b ≡ d.cached b
    cached_at = ap (λ (f : ℕ → Bool). f b) (Taken-cached t)

    words_at : (i : ℕ) → e.words b i ≡ d.words b i
    words_at i = ap (λ (f : ℕ → ℕ → ℕ). f b i) (Taken-words t)

    Allocated-page : Ensures (Allocated n d) (Refused n d) (page_or_free b (map_block b e))
    unfolding page_or_free
    Allocated-page =
        rw (map_block-paged b e is_address-taken, cached_at)
          (elim (Bool-cases (d.cached b)) [
            | inl old ↦ rw old (
                returned (record {
                  marked = e;
                  taken = t;
                  mapped = cached_at ∙ old;
                  page = λ i. rw old (words_at i);
                  rest = rw old refl;
                }))
            | inr new ↦ elim (Bool-cases (e.memory == 0)) [
              | inl empty ↦ rw (new, empty) (Refused-memory (sym (Taken-memory t) ∙ ground arith))
              | inr some_page ↦
                  rw (new, some_page)
                    (returned (record {
                      marked = e;
                      taken = t;
                      mapped = ground arith;
                      page = λ i. rw new (ground arith);
                      rest = rw new refl;
                    }))
            ]
          ])

  -- With the super block read, at least three blocks, and the blocks of the bitmap on the disk
  -- and cached, `alloc_block` returns the first free block from 3 on, now in use and with a page
  -- in the cache, of zeros if the block had none before, and changes nothing else; it fails with
  -- -E_NO_DISK only if no block from 3 on is free, or with -E_NO_MEM only if there is no memory,
  -- and then every block is as free as before and the cache holds what it held.
  pub alloc_block-Allocated : 3 ≤ n → Ensures (Allocated n d) (Refused n d) (alloc_block d)
  unfolding alloc_block
  alloc_block-Allocated ge =
      Ensures-bind
        (Ensures-mono (alloc_block_num-Taken n d l ge) (λ b e t. t)
          (λ f e (full, same, none_free). record {
            reason = inl (full, none_free);
            free = λ c. ap (block_is_free c) same;
            words = ap (λ (x : Disk). x.words) same;
            cached = ap (λ (x : Disk). x.cached) same;
          }))
        (λ b e t. Allocated-page b e t)
