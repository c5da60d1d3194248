-- ===== src/Syscall/Ranges.antt =====
-- The address checks of kern/syscall_all.c, which compute with wrap-around, against ranges of
-- addresses as numbers.
use spring_os.Base.{ℕ, ◌+◌, ◌^◌, ◌≤◌, ◌<◌, ◌≡◌, ◌↔◌, ◌⊎◌, false, arith}
use spring_os.Mmu.{utop, utemp}
use spring_os.Syscall.{is_illegal_va_range, is_illegal_dev_pa_range}

-- The bytes from `begin` on lie in the window of `size` bytes at `base`.
abbrev pub Within : ℕ → ℕ → ℕ → ℕ → Type 0
Within base size begin len = (base ≤ begin) × (begin + len ≤ base + size)

-- For a 32-bit address and length, `is_illegal_va_range` accepts exactly the empty range and the
-- ranges inside [UTEMP, UTOP), computed without wrap-around.
pub is_illegal_va_range_iff :
    (va len : ℕ)
    → va < 2 ^ 32
    → len < 2 ^ 32
    → (is_illegal_va_range va len ≡ false) ↔ ((len ≡ 0) ⊎ ((utemp ≤ va) × (va + len ≤ utop)))
unfolding is_illegal_va_range
is_illegal_va_range_iff va len p q = (λ h. ground arith, λ h. ground arith)

-- For a 32-bit address and length, `is_illegal_dev_pa_range` accepts exactly the empty range and
-- the ranges inside the console, disk or clock window, computed without wrap-around.
pub is_illegal_dev_pa_range_iff :
    (pa len : ℕ)
    → pa < 2 ^ 32
    → len < 2 ^ 32
    → (is_illegal_dev_pa_range pa len ≡ false) ↔ (
        (len ≡ 0)
        ⊎ Within 0x10000000 0x20 pa len
        ⊎ Within 0x13000000 0x4200 pa len
        ⊎ Within 0x15000000 0x200 pa len)
unfolding is_illegal_dev_pa_range
is_illegal_dev_pa_range_iff pa len p q = (λ h. ground arith, λ h. ground arith)
