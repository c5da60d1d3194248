-- ===== src/Elf.antt =====
-- The loader of ELF segments: lib/elfloader.c and include/elf.h.
pub mod Image
pub mod Loading
pub mod Examples
use spring_os.Base.{
  ℕ, zero, suc, ◌+◌, ◌-◌, ◌*◌, ◌/◌, ◌%◌, ◌^◌, Bool, true, false, not, ◌&&◌, ◌||◌, Option, none,
  some, bit_or, min, ltb, leb, ◌==◌, if◌then◌else◌,
}
use spring_os.Base.Run.{Cmd, ok, pure, fault, when, ◌>>=◌, ◌>>◌}
use spring_os.Base.Bits.{test_bit, word_of}
use spring_os.Mmu.{pte_v, pte_d}

-- `Elf32_Phdr`, without p_paddr and p_align, which nothing reads.
pub record Phdr : Type 0 where
  pub p_type : ℕ
  pub p_offset : ℕ
  pub p_vaddr : ℕ
  pub p_filesz : ℕ
  pub p_memsz : ℕ
  pub p_flags : ℕ

abbrev pub page_size : ℕ
page_size = 4096

-- ROUNDDOWN(a, n)
unfoldable pub round_down : ℕ → ℕ → ℕ
round_down a n = a - a % n

-- `elf_mapper_t`: the address, the offset in the page, the permissions, the source as an offset in the
-- binary (none for null) and the length.
abbrev pub Mapper : Type 0 → Type 0
Mapper S = ℕ → ℕ → ℕ → Option ℕ → ℕ → Cmd S (Unit {0})

-- PF_W is bit 1 of the flags.
unfoldable pub seg_perm : Phdr → ℕ
seg_perm ph = if test_bit ph.p_flags 1 then bit_or pte_v pte_d else pte_v

unfoldable pub seg_offset : Phdr → ℕ
seg_offset ph = ph.p_vaddr - round_down ph.p_vaddr page_size

-- The first value of `i`.
unfoldable pub first_part : Phdr → ℕ
first_part ph = if seg_offset ph == 0 then 0 else min ph.p_filesz (page_size - seg_offset ph)

module _ {S : Type 0} (map_page : Mapper S) (ph : Phdr) (bin : ℕ) where
  -- The loop of step 1 from `i` on, for so many rounds at most; the result is the last `i`.
  unfoldable pub load_file : ℕ → ℕ → Cmd S ℕ
  load_file zero i = if ltb i ph.p_filesz then fault else pure i
  load_file (suc rounds) i =
      if ltb i ph.p_filesz
      then (do
        map_page ((ph.p_vaddr + i) % 2 ^ 32) 0 (seg_perm ph) (some (bin + i))
            (min (ph.p_filesz - i) page_size)
        load_file rounds ((i + page_size) % 2 ^ 32))
      else pure i

  -- The loop of step 2.
  unfoldable pub load_rest : ℕ → ℕ → Cmd S (Unit {0})
  load_rest zero i = if ltb i ph.p_memsz then fault else pure tt
  load_rest (suc rounds) i =
      if ltb i ph.p_memsz
      then (do
        map_page ((ph.p_vaddr + i) % 2 ^ 32) 0 (seg_perm ph) none (min (ph.p_memsz - i) page_size)
        load_rest rounds ((i + page_size) % 2 ^ 32))
      else pure tt

  -- A round takes a page, so the rounds are at most one more than the pages.
  unfoldable pub elf_load_seg : Cmd S (Unit {0})
  elf_load_seg = do
    when (not (seg_offset ph == 0)) (
        map_page ph.p_vaddr (seg_offset ph) (seg_perm ph) (some bin)
          (min ph.p_filesz (page_size - seg_offset ph)))
    i ← load_file (ph.p_filesz / page_size + 1) (first_part ph)
    load_rest (ph.p_memsz / page_size + 1) i

-- A little-endian number of a binary.
unfoldable pub half_at : (ℕ → ℕ) → ℕ → ℕ
half_at binary i = binary i + binary (i + 1) * 2 ^ 8

unfoldable pub word_at : (ℕ → ℕ) → ℕ → ℕ
word_at binary i = word_of (λ t. binary (i + t))

-- The test of `elf_from`: the size of the header, the magic number and an executable file.
unfoldable pub is_elf : (ℕ → ℕ) → ℕ → Bool
is_elf binary size =
    leb 52 size
    && (binary 0 == 0x7f)
    && (binary 1 == 69)
    && (binary 2 == 76)
    && (binary 3 == 70)
    && (half_at binary 16 == 2)

-- The program header at an offset of the binary.
unfoldable pub phdr_at : (ℕ → ℕ) → ℕ → Phdr
phdr_at binary i = record {
  p_type = word_at binary i;
  p_offset = word_at binary (i + 4);
  p_vaddr = word_at binary (i + 8);
  p_filesz = word_at binary (i + 16);
  p_memsz = word_at binary (i + 20);
  p_flags = word_at binary (i + 24);
}
