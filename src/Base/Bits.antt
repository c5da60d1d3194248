-- ===== src/Base/Bits.antt =====
-- Bits of machine words: the native bit operations digit by digit, and single bits of a word.
use Prim.Native.Nat.{
  ℕ, zero, suc, ◌+◌, ◌-◌, ◌*◌, ◌/◌, ◌%◌, ◌^◌, ◌≤◌, ◌<◌, min, max, bit_and, bit_or, digits,
  bit_and-bitwise, bit_or-bitwise,
}
use mathlib.Core.Path.{◌≡◌, refl}
use mathlib.Core.Logic.{inl, inr}
use mathlib.Core.Bool.{Bool, true, false, not}
use native.Mathlib.Omega.{arith}
use native.Mathlib.Nat.{pow-succ', div-div-eq-div-mul}
use spring_os.Base.Tests.{◌==◌, Bool-cases, if◌then◌else◌}

-- An operation computed by `digits`, with `rest` for the second word when the first is used up and
-- `on_bit` for one digit: one round more than needed changes nothing, so neither do many.
module _ (rest : ℕ → ℕ) (on_bit : ℕ → ℕ → ℕ) where
  digits-round : (n v w : ℕ) → v ≤ n → digits rest on_bit (suc n) v w ≡ digits rest on_bit n v w
  digits-round zero zero w le = refl
  digits-round (suc n) zero w le = refl
  digits-round zero (suc v) w le = absurd (omega arith)
  digits-round (suc n) (suc v) w le =
      omega (arith, digits-round n (suc v / 2) (w / 2) (omega arith))

  digits-rounds : (n v w : ℕ) → v ≤ n → digits rest on_bit n v w ≡ digits rest on_bit v v w
  digits-rounds zero zero w le = refl
  digits-rounds zero (suc v) w le = absurd (omega arith)
  digits-rounds (suc n) v w le = elim (Bool-cases (v == suc n)) [
    | inl full ↦ let e : v ≡ suc n = ground arith in rw e
    | inr more ↦ rw (digits-round n v w (ground arith)) (digits-rounds n v w (ground arith))
  ]

  -- The word splits into its last digit and the rest.
  digits-split :
      ((w : ℕ) → rest w ≡ rest (w / 2) * 2 + on_bit 0 (w % 2))
      → (v w : ℕ)
      → digits rest on_bit v v w
        ≡ digits rest on_bit (v / 2) (v / 2) (w / 2) * 2 + on_bit (v % 2) (w % 2)
  digits-split last zero w = last w
  digits-split last (suc v) w = omega (arith, digits-rounds v (suc v / 2) (w / 2) (omega arith))

pub bit_or_step : (a b : ℕ) → bit_or a b ≡ bit_or (a / 2) (b / 2) * 2 + max (a % 2) (b % 2)
bit_or_step a b = omega (
  arith,
  bit_or-bitwise a b,
  bit_or-bitwise (a / 2) (b / 2),
  digits-split (λ w. w) max (λ w. omega arith) a b,
)

pub bit_and_step : (a b : ℕ) → bit_and a b ≡ bit_and (a / 2) (b / 2) * 2 + min (a % 2) (b % 2)
bit_and_step a b = omega (
  arith,
  bit_and-bitwise a b,
  bit_and-bitwise (a / 2) (b / 2),
  digits-split (λ w. 0) min (λ w. omega arith) a b,
)

-- Shifting right goes through both operations.
div-pow-suc : (a k : ℕ) → a / 2 ^ suc k ≡ a / 2 / 2 ^ k
div-pow-suc a k = rw (pow-succ' 2 k, ← div-div-eq-div-mul a 2 (2 ^ k))

pub bit_or-div : (k a b : ℕ) → bit_or a b / 2 ^ k ≡ bit_or (a / 2 ^ k) (b / 2 ^ k)
bit_or-div zero a b =
    let e : (n : ℕ) → n / 1 ≡ n = λ n. omega arith in rw (e (bit_or a b), e a, e b)
bit_or-div (suc k) a b =
    let e : bit_or a b / 2 ≡ bit_or (a / 2) (b / 2) = omega (arith, bit_or_step a b) in
    rw (div-pow-suc (bit_or a b) k, div-pow-suc a k, div-pow-suc b k, e)
      (bit_or-div k (a / 2) (b / 2))

pub bit_and-div : (k a b : ℕ) → bit_and a b / 2 ^ k ≡ bit_and (a / 2 ^ k) (b / 2 ^ k)
bit_and-div zero a b =
    let e : (n : ℕ) → n / 1 ≡ n = λ n. omega arith in rw (e (bit_and a b), e a, e b)
bit_and-div (suc k) a b =
    let e : bit_and a b / 2 ≡ bit_and (a / 2) (b / 2) = omega (arith, bit_and_step a b) in
    rw (div-pow-suc (bit_and a b) k, div-pow-suc a k, div-pow-suc b k, e)
      (bit_and-div k (a / 2) (b / 2))

bit_or-zero_below : (n a : ℕ) → a < n → bit_or a 0 ≡ a
bit_or-zero_below zero a h = absurd (omega arith)
bit_or-zero_below (suc n) zero h = refl
bit_or-zero_below (suc n) (suc a) h =
    omega (arith, bit_or_step (suc a) 0, bit_or-zero_below n (suc a / 2) (omega arith))

pub bit_or-zero : (a : ℕ) → bit_or a 0 ≡ a
bit_or-zero a = bit_or-zero_below (suc a) a (omega arith)

bit_and-zero_below : (n a : ℕ) → a < n → bit_and a 0 ≡ 0
bit_and-zero_below zero a h = absurd (omega arith)
bit_and-zero_below (suc n) zero h = refl
bit_and-zero_below (suc n) (suc a) h =
    omega (arith, bit_and_step (suc a) 0, bit_and-zero_below n (suc a / 2) (omega arith))

pub bit_and-zero : (a : ℕ) → bit_and a 0 ≡ 0
bit_and-zero a = bit_and-zero_below (suc a) a (omega arith)

-- Bit `i` of a word as a number.
abbrev pub bit : ℕ → ℕ → ℕ
bit w i = w / 2 ^ i % 2

pub bit-bit_or : (a b i : ℕ) → bit (bit_or a b) i ≡ max (bit a i) (bit b i)
bit-bit_or a b i = omega (arith, bit_or-div i a b, bit_or_step (a / 2 ^ i) (b / 2 ^ i))

pub bit-bit_and : (a b i : ℕ) → bit (bit_and a b) i ≡ min (bit a i) (bit b i)
bit-bit_and a b i = omega (arith, bit_and-div i a b, bit_and_step (a / 2 ^ i) (b / 2 ^ i))

zero-div_pow : (i : ℕ) → 0 / 2 ^ i ≡ 0
zero-div_pow zero = refl
zero-div_pow (suc i) = rw (div-pow-suc 0 i) (zero-div_pow i)

pub bit-pow : (i j : ℕ) → bit (2 ^ i) j ≡ (if i == j then 1 else 0)
bit-pow zero zero = refl
bit-pow zero (suc j) = rw (div-pow-suc 1 j, zero-div_pow j) (ground arith)
bit-pow (suc i) zero = ground (arith, pow-succ' 2 i)
bit-pow (suc i) (suc j) =
    let e : 2 ^ suc i / 2 ≡ 2 ^ i = omega (arith, pow-succ' 2 i) in
    rw (div-pow-suc (2 ^ suc i) j, e) (ground (arith, bit-pow i j))

pow_pos : (n : ℕ) → 1 ≤ 2 ^ n
pow_pos zero = omega arith
pow_pos (suc n) = omega (arith, pow-succ' 2 n, pow_pos n)

bit-ones : (n j : ℕ) → j < n → bit (2 ^ n - 1) j ≡ 1
bit-ones zero j h = absurd (omega arith)
bit-ones (suc n) zero h = omega (arith, pow-succ' 2 n, pow_pos n)
bit-ones (suc n) (suc j) h =
    let e : (2 ^ suc n - 1) / 2 ≡ 2 ^ n - 1 = omega (arith, pow-succ' 2 n, pow_pos n) in
    rw (div-pow-suc (2 ^ suc n - 1) j, e) (bit-ones n j (omega arith))

pow_lt : (i n : ℕ) → i < n → 2 ^ i < 2 ^ n
pow_lt i zero h = absurd (omega arith)
pow_lt zero (suc n) h = omega (arith, pow-succ' 2 n, pow_pos n)
pow_lt (suc i) (suc n) h = omega (arith, pow-succ' 2 n, pow-succ' 2 i, pow_lt i n)

-- The mask of all ones below `n` but bit `i`.
bit-mask : (n i j : ℕ) → i < n → j < n → bit (2 ^ n - 1 - 2 ^ i) j ≡ (if i == j then 0 else 1)
bit-mask zero i j p q = absurd (omega arith)
bit-mask (suc n) zero zero p q = omega (arith, pow-succ' 2 n, pow_pos n)
bit-mask (suc n) zero (suc j) p q =
    let e : (2 ^ suc n - 1 - 1) / 2 ≡ 2 ^ n - 1 = omega (arith, pow-succ' 2 n, pow_pos n) in
    rw (div-pow-suc (2 ^ suc n - 1 - 1) j, e) (ground (arith, bit-ones n j (omega arith)))
bit-mask (suc n) (suc i) zero p q =
    ground (arith, pow-succ' 2 n, pow-succ' 2 i, pow_lt i n (omega arith))
bit-mask (suc n) (suc i) (suc j) p q =
    let e : (2 ^ suc n - 1 - 2 ^ suc i) / 2 ≡ 2 ^ n - 1 - 2 ^ i =
      omega (arith, pow-succ' 2 n, pow-succ' 2 i, pow_lt i n (omega arith)) in
    rw (div-pow-suc (2 ^ suc n - 1 - 2 ^ suc i) j, e)
      (ground (arith, bit-mask n i j (omega arith) (omega arith)))

-- The C idioms on a 32-bit word: `w & (1 << i)` as a test, `w |= 1 << i` and `w &= ~(1 << i)`.
unfoldable pub test_bit : ℕ → ℕ → Bool
test_bit w i = not (bit_and w (2 ^ i) == 0)

unfoldable pub set_bit : ℕ → ℕ → ℕ
set_bit w i = bit_or w (2 ^ i)

unfoldable pub clear_bit : ℕ → ℕ → ℕ
clear_bit w i = bit_and w (2 ^ 32 - 1 - 2 ^ i)

bit_and-pow : (w i : ℕ) → bit_and w (2 ^ i) ≡ bit w i * 2 ^ i
bit_and-pow w zero = omega (arith, bit_and_step w 1, bit_and-zero (w / 2))
bit_and-pow w (suc i) =
    let e : 2 ^ suc i / 2 ≡ 2 ^ i = omega (arith, pow-succ' 2 i) in
    let s : bit_and w (2 ^ suc i) ≡ bit_and (w / 2) (2 ^ i) * 2 =
      rw (← e) (omega (arith, bit_and_step w (2 ^ suc i), pow-succ' 2 i)) in
    rw (s, bit_and-pow (w / 2) i, div-pow-suc w i, pow-succ' 2 i) (omega arith)

flag-scaled : (b p : ℕ) → b < 2 → 1 ≤ p → not (b * p == 0) ≡ (b == 1)
flag-scaled zero p h k = ground arith
flag-scaled (suc zero) p h k = ground arith
flag-scaled (suc (suc b)) p h k = absurd (omega arith)

pub test_bit_lem : (w i : ℕ) → test_bit w i ≡ (bit w i == 1)
unfolding test_bit
test_bit_lem w i = rw (bit_and-pow w i) (flag-scaled (bit w i) (2 ^ i) (omega arith) (pow_pos i))

pub test_bit-set_bit :
    (w i j : ℕ) → test_bit (set_bit w i) j ≡ (if i == j then true else test_bit w j)
unfolding set_bit
test_bit-set_bit w i j = ground (
  arith,
  test_bit_lem (bit_or w (2 ^ i)) j,
  test_bit_lem w j,
  bit-bit_or w (2 ^ i) j,
  bit-pow i j,
)

pub test_bit-clear_bit :
    (w i j : ℕ)
    → i < 32
    → j < 32
    → test_bit (clear_bit w i) j ≡ (if i == j then false else test_bit w j)
unfolding clear_bit
test_bit-clear_bit w i j p q = ground (
  arith,
  test_bit_lem (bit_and w (2 ^ 32 - 1 - 2 ^ i)) j,
  test_bit_lem w j,
  bit-bit_and w (2 ^ 32 - 1 - 2 ^ i) j,
  bit-mask 32 i j p q,
)

mod_double : (n p : ℕ) → 0 < p → n % (2 * p) ≡ n / 2 % p * 2 + n % 2
mod_double n p h = grind arith

bit_or_double :
    (x y u v : ℕ) → u < 2 → v < 2 → bit_or (x * 2 + u) (y * 2 + v) ≡ bit_or x y * 2 + max u v
bit_or_double x y u v p q =
    let a : (x * 2 + u) / 2 ≡ x = omega arith in
    let b : (y * 2 + v) / 2 ≡ y = omega arith in
    let c : (x * 2 + u) % 2 ≡ u = omega arith in
    let d : (y * 2 + v) % 2 ≡ v = omega arith in
    rw (bit_or_step (x * 2 + u) (y * 2 + v), a, b, c, d)

-- The low digits of a disjunction.
pub bit_or-low : (k a b : ℕ) → bit_or a b % 2 ^ k ≡ bit_or (a % 2 ^ k) (b % 2 ^ k)
bit_or-low zero a b =
    let e : (n : ℕ) → n % 1 ≡ 0 = λ n. omega arith in rw (e (bit_or a b), e a, e b)
bit_or-low (suc k) a b =
    let e : bit_or a b / 2 ≡ bit_or (a / 2) (b / 2) = omega (arith, bit_or_step a b) in
    rw
      (
        pow-succ' 2 k,
        mod_double (bit_or a b) (2 ^ k) (pow_pos k),
        mod_double a (2 ^ k) (pow_pos k),
        mod_double b (2 ^ k) (pow_pos k),
        e,
        bit_or-low k (a / 2) (b / 2),
      )
      (omega (
        arith,
        bit_or_step a b,
        bit_or_double (a / 2 % 2 ^ k) (b / 2 % 2 ^ k) (a % 2) (b % 2) (omega arith) (omega arith),
      ))

pub zero-bit_or : (b : ℕ) → bit_or 0 b ≡ b
zero-bit_or b = bit_or-bitwise 0 b

-- The low digits of a disjunction whose first part has none there.
pub bit_or-low_zero : (k a b : ℕ) → a % 2 ^ k ≡ 0 → bit_or a b % 2 ^ k ≡ b % 2 ^ k
bit_or-low_zero k a b e = rw (bit_or-low k a b, e) (zero-bit_or (b % 2 ^ k))

-- The byte of a word, the lowest one first.
unfoldable pub byte_of : ℕ → ℕ → ℕ
byte_of w k = w / 256 ^ k % 256

unfoldable pub set_byte : ℕ → ℕ → ℕ → ℕ
set_byte w k c = w - byte_of w k * 256 ^ k + c * 256 ^ k

-- A word from its bytes.
unfoldable pub word_of : (ℕ → ℕ) → ℕ
word_of f = f 0 + f 1 * 2 ^ 8 + f 2 * 2 ^ 16 + f 3 * 2 ^ 24

pub byte_of-word_of :
    (f : ℕ → ℕ) (t : ℕ) → ((i : ℕ) → f i < 256) → t < 4 → byte_of (word_of f) t ≡ f t
unfolding byte_of word_of
byte_of-word_of f zero small lt = omega (arith, small 0, small 1, small 2, small 3)
byte_of-word_of f (suc zero) small lt = omega (arith, small 0, small 1, small 2, small 3)
byte_of-word_of f (suc (suc zero)) small lt = omega (arith, small 0, small 1, small 2, small 3)
byte_of-word_of f (suc (suc (suc zero))) small lt =
    omega (arith, small 0, small 1, small 2, small 3)
byte_of-word_of f (suc (suc (suc (suc t)))) small lt = absurd (omega (arith, lt))
