-- ===== src/Mmu.antt =====
-- The address arithmetic and the page-table flags of include/mmu.h and include/pmap.h. Addresses and
-- table entries are 32-bit words, kept as numbers; a shift is a quotient, a mask of low bits a
-- remainder. Kernel virtual addresses of whole pages (KADDR, page2kva) are kept as page numbers.
use spring_os.Base.{ℕ, ◌+◌, ◌-◌, ◌*◌, ◌/◌, ◌%◌, ◌^◌, bit_or, Bool}
pub mod Laws
use spring_os.Base.Bits.{test_bit}

abbrev pub by2pg : ℕ
by2pg = 4096

abbrev pub pdmap : ℕ
pdmap = 4 * 1024 * 1024

-- PDX(va), PTX(va) and PPN(va).
unfoldable pub pdx : ℕ → ℕ
pdx va = va / 2 ^ 22 % 1024

unfoldable pub ptx : ℕ → ℕ
ptx va = va / 2 ^ 12 % 1024

unfoldable pub ppn : ℕ → ℕ
ppn pa = pa / 2 ^ 12

-- PTE_ADDR(pte), the entry without its 12 flag bits.
unfoldable pub pte_addr : ℕ → ℕ
pte_addr pte = pte - pte % 2 ^ 12

abbrev pub pte_g : ℕ
pte_g = 0x0100

abbrev pub pte_v : ℕ
pte_v = 0x0200

abbrev pub pte_d : ℕ
pte_d = 0x0400

abbrev pub pte_cow : ℕ
pte_cow = 0x0001

abbrev pub pte_library : ℕ
pte_library = 0x0004

-- The test `pte & PTE_V`: PTE_V is bit 9.
unfoldable pub is_valid : ℕ → Bool
is_valid pte = test_bit pte 9

-- page2pa(pp), with the wrap-around of the shift.
unfoldable pub page2pa : ℕ → ℕ
page2pa pp = pp * 2 ^ 12 % 2 ^ 32

-- The entry `page2pa(pp) | perm | PTE_V`.
unfoldable pub make_pte : ℕ → ℕ → ℕ
make_pte pp perm = bit_or (bit_or (page2pa pp) perm) pte_v

-- The borders of the address space.
abbrev pub ulim : ℕ
ulim = 0x80000000

abbrev pub uvpt : ℕ
uvpt = ulim - pdmap

abbrev pub upages : ℕ
upages = uvpt - pdmap

abbrev pub uenvs : ℕ
uenvs = upages - pdmap

abbrev pub utop : ℕ
utop = uenvs

abbrev pub ustacktop : ℕ
ustacktop = utop - 2 * by2pg

abbrev pub utext : ℕ
utext = pdmap

abbrev pub ucow : ℕ
ucow = utext - by2pg

abbrev pub utemp : ℕ
utemp = ucow - by2pg

-- ROUND(a, n) for a power of two n: up to the next multiple, in 32 bits.
unfoldable pub round_up : ℕ → ℕ → ℕ
round_up a n = let b = (a + n - 1) % 2 ^ 32 in b - b % n

-- The directory entry of a new table, `page2pa(pp)` with `PTE_D | PTE_V` put in.
unfoldable pub table_pte : ℕ → ℕ
table_pte pp = bit_or (page2pa pp) (bit_or pte_d pte_v)
