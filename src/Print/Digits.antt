-- ===== src/Print/Digits.antt =====
-- The digits that `print_num` of lib/print.c writes, read back as a number.
use spring_os.Base.{
  ℕ, zero, suc, ◌+◌, ◌-◌, ◌*◌, ◌/◌, ◌%◌, ◌^◌, ◌≤◌, ◌<◌, ◌≡◌, Bool, List, [], ◌∷◌, leb, ◌==◌,
  if◌then◌else◌, arith, Bool-cases, ap, inl, inr,
}
use native.Mathlib.Nat.{div-add-mod, mul-le-mul_right, mod-lt, pow-succ'}
use spring_os.Print.{digit_char, low_digits}

-- The value of a digit character.
unfoldable pub char_value : ℕ → ℕ
char_value c = if leb c 57 then c - 48 else if leb c 90 then c - 55 else c - 87

-- The number that digits stand for, lowest first.
unfoldable pub value : ℕ → List ℕ → ℕ
value base [] = 0
value base (c ∷ cs) = char_value c + base * value base cs

char_value-digit_char : (upcase : Bool) (d : ℕ) → d < 36 → char_value (digit_char upcase d) ≡ d
unfolding char_value digit_char
char_value-digit_char upcase d lt = ground arith

pub half_div : (u base : ℕ) → 2 ≤ base → 2 * (u / base) ≤ u
half_div u base b =
    let split : base * (u / base) + u % base ≡ u = div-add-mod u base in
    let grow : 2 * (u / base) ≤ base * (u / base) = mul-le-mul_right (u / base) b in omega arith

-- So many rounds are enough: the number is below the power of two.
pub value-low_digits :
    (rounds base : ℕ) (upcase : Bool) (u : ℕ)
    → 2 ≤ base
    → base ≤ 36
    → u < 2 ^ rounds
    → value base (low_digits rounds base upcase u) ≡ u
unfolding value low_digits
value-low_digits zero base upcase u b b' lt = omega arith
value-low_digits (suc rounds) base upcase u b b' lt =
    let split : base * (u / base) + u % base ≡ u = div-add-mod u base in
    let small : u % base < base = mod-lt u (omega arith) in
    let char = char_value-digit_char upcase (u % base) (omega arith) in
    let less : u / base < 2 ^ rounds = omega (arith, half_div u base b, pow-succ' 2 rounds) in
    let rest = value-low_digits rounds base upcase (u / base) b b' less in
    elim (Bool-cases (u / base == 0)) [
      | inl last ↦
          let z : u / base ≡ 0 = ground arith in
          rw (last, char) (omega (arith, ap (λ q. base * q) z))
      | inr more ↦ rw (more, char, rest) (omega arith)
    ]
