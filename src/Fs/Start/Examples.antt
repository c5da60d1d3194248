-- ===== src/Fs/Start/Examples.antt =====
-- `fs_init` of fs/fs.c at a disk of six blocks, of which the last three are free.
use spring_os.Base.{
  zero, suc, ℕ, ◌+◌, ◌*◌, ◌/◌, ◌%◌, ◌<◌, ◌≡◌, refl, true, false, none, [], ◌==◌, if◌then◌else◌,
  arith,
}
use spring_os.Base.Bits.{test_bit}
use spring_os.Base.Run.{Ensures}
use spring_os.Fs.{Disk, nbitmap, free_bit}
use spring_os.Fs.Bitmap.{IsLoaded}
use spring_os.Fs.Start.{fs_magic, fs_init}
use spring_os.Fs.Start.Loading.{IsFormatted}
use spring_os.Fs.Start.Ready.{fs_init-IsLoaded}

abbrev formatted : Disk
formatted = record {
  super = none;
  bitmap = λ i. 0;
  bitmap_read = false;
  cached = λ b. false;
  dirty = λ b. false;
  words = λ b i. 0;
  on_disk = λ b i.
      if b == 1
      then (if i == 0 then fs_magic else if i == 1 then 6 else 0)
      else if b == 2
      then (if i == 0 then 56 else 0)
      else 0;
  memory = 10;
  written = [];
}

reserved_used :
    (b : ℕ) → b < 3 → free_bit (λ j. formatted.on_disk (2 + j / 1024) (j % 1024)) b ≡ false
unfolding free_bit test_bit
reserved_used zero lt = refl
reserved_used (suc zero) lt = refl
reserved_used (suc (suc zero)) lt = refl
reserved_used (suc (suc (suc b))) lt = absurd (omega (arith, lt))

formatted-IsFormatted : IsFormatted 6 formatted
unfolding nbitmap free_bit test_bit
formatted-IsFormatted = record {
  super = refl;
  unread = refl;
  cached = λ b. refl;
  magic = refl;
  size = refl;
  small = omega arith;
  inside = omega arith;
  used = reserved_used;
  pages = omega arith;
}

fs_init-IsLoaded_example :
    Ensures
      (λ _ e.
        IsLoaded 6 e
        × (e.bitmap_read ≡ true)
        × ((j : ℕ)
            → j < nbitmap 6 * 1024
            → e.bitmap j ≡ formatted.on_disk (2 + j / 1024) (j % 1024))
        × ((b i : ℕ) → e.on_disk b i ≡ formatted.on_disk b i))
      (λ _ _. ⊥)
      (fs_init formatted)
fs_init-IsLoaded_example = fs_init-IsLoaded 6 formatted formatted-IsFormatted
