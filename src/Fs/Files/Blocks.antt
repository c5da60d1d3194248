-- ===== src/Fs/Files/Blocks.antt =====
-- The block map of a file in fs/fs.c: `file_map_block` gives a block to each place of the file once.
use spring_os.Base.{ℕ, ◌+◌, ◌≤◌, ◌<◌, ◌≡◌, ◌≢◌, Bool, true, false, ◌&&◌, ◌==◌, update}
use spring_os.Base.Run.{ok}
use spring_os.Fs.{Disk, is_address, block_is_free}
use spring_os.Fs.Files.{Slot, f_direct, ndirect, nindirect, file_map_block}

-- Where the number of the `i`th block of a file stands: in the file, or in an indirect block that is
-- in use, in the cache, and not the page of the file.
pub data Located (f : Slot) (i : ℕ) (d : Disk) : Slot → Type 0 where
  direct : i < ndirect → Located f i d (f_direct f i)
  indirect :
      {ind : ℕ}
      → ndirect ≤ i
      → i < nindirect
      → d.words f.0 (f.1 + 44) ≡ ind
      → ind ≢ 0
      → ind ≢ f.0
      → is_address d.super ind ≡ true
      → block_is_free ind d ≡ false
      → d.cached ind ≡ true
      → Located f i d (ind, i)

-- A place of the file has block `b`: every later call returns it and changes nothing.
pub record Mapped (f : Slot) (i : ℕ) (slot : Slot) (b : ℕ) (e : Disk) : Type 0 where
  pub held : e.words slot.0 slot.1 ≡ b
  pub exists : b ≢ 0
  pub stable : (alloc : Bool) → file_map_block f i alloc e ≡ ok b e

-- The word of a slot is replaced.
abbrev pub written_at : Disk → Slot → ℕ → Disk
written_at d s v = record d { words = update d.words s.0 (update (d.words s.0) s.1 v) }

-- What `file_map_block` leaves alone.
abbrev pub SamePages : Disk → Slot → ℕ → Disk → Type 0
SamePages d slot b e =
    (p j : ℕ)
    → d.cached p ≡ true
    → ((p == slot.0) && (j == slot.1)) ≡ false
    → e.words p j ≡ d.words p j
