-- ===== src/Mmu/Laws.antt =====
-- What the table entries of include/mmu.h hold: the page and the valid flag that were put in.
use spring_os.Base.{ℕ, ◌/◌, ◌^◌, ◌<◌, ◌≡◌, true, false, bit_or, arith}
use spring_os.Base.Bits.{test_bit_lem, bit-bit_or, bit_or-div, bit_or-zero}
use spring_os.Mmu.{ppn, is_valid, page2pa, make_pte, pte_v, table_pte}

pub page2pa-ppn : (p : ℕ) → p < 2 ^ 20 → ppn (page2pa p) ≡ p
unfolding ppn page2pa
page2pa-ppn p h = omega arith

pub make_pte-is_valid : (p perm : ℕ) → is_valid (make_pte p perm) ≡ true
unfolding is_valid make_pte
make_pte-is_valid p perm =
    rw (test_bit_lem (bit_or (bit_or (page2pa p) perm) pte_v) 9)
      (ground (arith, bit-bit_or (bit_or (page2pa p) perm) pte_v 9))

pub ppn-make_pte : (p perm : ℕ) → p < 2 ^ 20 → perm < 2 ^ 12 → ppn (make_pte p perm) ≡ p
unfolding ppn make_pte
ppn-make_pte p perm h k =
    let low : perm / 2 ^ 12 ≡ 0 = omega arith in
    let base : page2pa p / 2 ^ 12 ≡ p = page2pa-ppn p h in
    rw (
      bit_or-div 12 (bit_or (page2pa p) perm) pte_v,
      bit_or-div 12 (page2pa p) perm,
      low,
      base,
      bit_or-zero p,
      bit_or-zero p,
    )

pub table_pte-is_valid : (p : ℕ) → is_valid (table_pte p) ≡ true
unfolding is_valid table_pte
table_pte-is_valid p =
    rw (test_bit_lem (bit_or (page2pa p) 0x600) 9) (ground (arith, bit-bit_or (page2pa p) 0x600 9))

pub ppn-table_pte : (p : ℕ) → p < 2 ^ 20 → ppn (table_pte p) ≡ p
unfolding ppn table_pte
ppn-table_pte p h = rw (bit_or-div 12 (page2pa p) 0x600, page2pa-ppn p h, bit_or-zero p)

pub is_valid-zero : is_valid 0 ≡ false
unfolding is_valid
is_valid-zero = rw (test_bit_lem 0 9)
