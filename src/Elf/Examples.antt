-- ===== src/Elf/Examples.antt =====
-- The loader of lib/elfloader.c at a segment that starts in the middle of a page.
use spring_os.Base.{ℕ, ◌%◌, none, inl, inr, arith}
use spring_os.Base.Run.{Ensures}
use spring_os.Elf.{Phdr, seg_offset, round_down, elf_load_seg}
use spring_os.Elf.Image.{Image, place}
use spring_os.Elf.Loading.{Fits, Loaded, elf_load_seg-Loaded}

abbrev segment : Phdr
segment = record {
  p_type = 1;
  p_offset = 96;
  p_vaddr = 0x400060;
  p_filesz = 6000;
  p_memsz = 9000;
  p_flags = 7;
}

abbrev program : ℕ → ℕ
program i = i % 256

abbrev empty : Image
empty a = none

segment-Fits : Fits segment
segment-Fits = record { file_fits = omega arith; memory_fits = omega arith }

elf_load_seg-Loaded_example :
    Ensures
      (λ _ u. Loaded program segment 96 empty u)
      (λ _ _. ⊥)
      (elf_load_seg (place program) segment 96 empty)
unfolding seg_offset round_down
elf_load_seg-Loaded_example =
    elf_load_seg-Loaded program segment 96 empty segment-Fits (inr (inl (omega arith)))
