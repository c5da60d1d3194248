-- ===== src/Asid.antt =====
-- Address space identifiers: `asid_alloc` and `asid_free` of kern/env.c, on a bitmap of two words.
pub mod Laws
use spring_os.Base.{
  ℕ, zero, suc, ◌+◌, ◌/◌, ◌%◌, Bool, true, false, Option, none, some, if◌then◌else◌, update,
}
use spring_os.Base.Run.{no_free_env, Cmd, ok, err, modify}
use spring_os.Base.Bits.{test_bit, set_bit, clear_bit}
use spring_os.Kernel.{Kernel}

abbrev pub nasid : ℕ
nasid = 64

-- The bit of identifier `i`: `index = i >> 5`, `inner = i & 31`.
unfoldable pub asid_used : (ℕ → ℕ) → ℕ → Bool
asid_used bitmap i = test_bit (bitmap (i / 32)) (i % 32)

unfoldable pub asid_mark : (ℕ → ℕ) → ℕ → ℕ → ℕ
asid_mark bitmap i = update bitmap (i / 32) (set_bit (bitmap (i / 32)) (i % 32))

unfoldable pub asid_unmark : (ℕ → ℕ) → ℕ → ℕ → ℕ
asid_unmark bitmap i = update bitmap (i / 32) (clear_bit (bitmap (i / 32)) (i % 32))

-- The loop of `asid_alloc`, with the rounds left.
asid_loop : (rounds i : ℕ) → Cmd Kernel ℕ
unfolding asid_used asid_mark
asid_loop zero i k = err no_free_env k
asid_loop (suc rounds) i k =
    let rest = asid_loop rounds (i + 1) k in
    if asid_used k.asid_bitmap i
    then rest
    else ok i (record k { asid_bitmap = asid_mark k.asid_bitmap i })

unfoldable pub asid_alloc : Cmd Kernel ℕ
unfolding asid_loop
asid_alloc = asid_loop nasid 0

unfoldable pub asid_free : ℕ → Cmd Kernel (Unit {0})
unfolding asid_unmark
asid_free i = modify λ k. record k { asid_bitmap = asid_unmark k.asid_bitmap i }
