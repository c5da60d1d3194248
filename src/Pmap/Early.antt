-- ===== src/Pmap/Early.antt =====
-- Memory before the pages are managed: `mips_detect_memory`, `alloc` and `mips_vm_init` of kern/pmap.c.
use spring_os.Base.{
  ℕ, ◌+◌, ◌-◌, ◌*◌, ◌/◌, ◌%◌, ◌^◌, ◌≤◌, ◌<◌, ◌≡◌, refl, true, false, not, leb, ◌==◌, if◌then◌else◌,
  arith,
}
use spring_os.Base.Run.{Cmd, pure, get, modify, check, Ensures, returned, ◌>>=◌, ◌>>◌}
use spring_os.Mmu.{round_up, ulim}

-- The static variables; `end` is the address where the kernel ends, set by the linker.
pub record Early : Type 0 where
  pub end : ℕ
  pub freemem : ℕ
  pub memsize : ℕ
  pub npage : ℕ
  pub pages : ℕ

-- The size comes from the device.
unfoldable pub mips_detect_memory : ℕ → Early → Early
mips_detect_memory size s = record s { memsize = size; npage = size / 4096 }

-- PADDR, with its check.
unfoldable pub paddr : ℕ → Cmd Early ℕ
paddr kva = do check (leb ulim kva); pure (kva - ulim)

-- `clear` is not kept: the words of the chunk are not part of the state.
unfoldable pub alloc : (n align : ℕ) → Cmd Early ℕ
alloc n align s =
    let start = round_up (if s.freemem == 0 then s.end else s.freemem) align in
    let top = (start + n) % 2 ^ 32 in
    (do
      pa ← paddr top
      check (not (leb s.memsize pa))
      modify λ s. record s { freemem = top }
      pure start)
      s

-- `struct Page` has 12 bytes.
unfoldable pub mips_vm_init : Cmd Early (Unit {0})
mips_vm_init = do s ← get; start ← alloc (s.npage * 12) 4096; modify λ s. record s { pages = start }

-- Where there is room, `alloc` gives a chunk of whole pages behind the memory given before.
alloc-chunk :
    (n : ℕ) (s : Early)
    → ulim ≤ s.freemem
    → s.freemem + 4096 + n < ulim + s.memsize
    → ulim + s.memsize ≤ 2 ^ 32
    → Ensures
        (λ a t.
          (s.freemem ≤ a)
          × (a < s.freemem + 4096)
          × (a % 4096 ≡ 0)
          × (t ≡ record s { freemem = a + n }))
        (λ _ _. ⊥)
        (alloc n 4096 s)
unfolding alloc paddr round_up
alloc-chunk n s kernel room memory =
    let used : (s.freemem == 0) ≡ false = ground arith in
    let small : (s.freemem + 4096 - 1) % 2 ^ 32 ≡ s.freemem + 4095 = omega (arith, room, memory) in
    let start : ℕ = s.freemem + 4095 - (s.freemem + 4095) % 4096 in
    let top : (start + n) % 2 ^ 32 ≡ start + n = omega (arith, room, memory) in
    let high : leb ulim (start + n) ≡ true = ground (arith, kernel) in
    let inside : leb s.memsize (start + n - ulim) ≡ false = ground (arith, room, kernel) in
    rw (used, small, top, high, inside) (returned (omega arith, omega arith, omega arith, refl))
