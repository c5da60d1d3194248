-- ===== src/Print/Layout.antt =====
-- What `print_num` of lib/print.c prints: sign, digits and padding in reading order.
use spring_os.Base.{
  append-nil, ℕ, suc, ◌+◌, ◌-◌, ◌^◌, ◌≤◌, ◌<◌, ◌≡◌, refl, ap, sym, ◌∙◌, Bool, true, false, ◌&&◌,
  List, [], ◌∷◌, ◌++◌, ltb, ◌==◌, if◌then◌else◌, length, arith, Bool-cases, inl, inr, length-append,
}
use spring_os.Print.{padding, low_digits, swap_ends, buffer, flush, padded, emit, print_num}
use spring_os.Print.Digits.{value, value-low_digits}
use spring_os.Print.Reversal.{
  backwards, flush-swap_ends, backwards-append, backwards-padding, length-padding,
}

-- The digits in reading order.
abbrev pub numeral : ℕ → Bool → ℕ → List ℕ
numeral base upcase u = backwards (low_digits 32 base upcase u)

abbrev pub sign : Bool → List ℕ
sign neg_flag = if neg_flag then 45 ∷ [] else []

-- The text that `print_num` is meant to print, for digits in reading order.
unfoldable pub laid_out : List ℕ → Bool → ℕ → Bool → ℕ → List ℕ
laid_out digits neg_flag width ladjust padc =
    let pad = width - (length digits + length (sign neg_flag)) in
    if ladjust
    then (sign neg_flag ++ digits) ++ padding pad 32
    else if neg_flag && (padc == 48)
    then sign neg_flag ++ (padding pad 48 ++ digits)
    else padding pad padc ++ (sign neg_flag ++ digits)

length-backwards : (xs : List ℕ) → length (backwards xs) ≡ length xs
unfolding backwards
length-backwards [] = refl
length-backwards (x ∷ xs) =
    omega (arith, length-append (backwards xs) (x ∷ []), length-backwards xs)

flush-whole :
    (xs : List ℕ) (n : ℕ)
    → n ≡ length xs
    → 1 ≤ length xs
    → flush n (swap_ends n 0 (n - 1) (buffer xs)) ≡ backwards xs
flush-whole xs n size pos =
    ap (λ l. flush n (swap_ends n 0 (n - 1) (buffer l))) (sym (append-nil xs))
    ∙ ap (λ m. flush n (swap_ends n 0 (m - 1) (buffer (xs ++ [])))) size
    ∙ flush-swap_ends xs [] n (omega arith) pos
    ∙ append-nil (backwards xs)

at_least : (width n : ℕ) → (if ltb width n then n else width) ≡ n + (width - n)
at_least width n = ground arith

length-sign :
    (ds : List ℕ) (neg_flag : Bool)
    → length (ds ++ sign neg_flag) ≡ length (backwards ds) + length (sign neg_flag)
length-sign ds neg_flag = omega (arith, length-append ds (sign neg_flag), length-backwards ds)

backwards-sign :
    (ds : List ℕ) (neg_flag : Bool)
    → backwards (ds ++ sign neg_flag) ≡ sign neg_flag ++ backwards ds
unfolding backwards
backwards-sign ds true = backwards-append ds (45 ∷ [])
backwards-sign ds false = backwards-append ds []

padded-left :
    (ds : List ℕ) (neg_flag : Bool) (w padc : ℕ)
    → padded ds neg_flag w true padc
      ≡ (ds ++ sign neg_flag) ++ padding (w - length (ds ++ sign neg_flag)) 32
unfolding padded
padded-left ds true w padc = refl
padded-left ds false w padc = refl

padded-right :
    (ds : List ℕ) (neg_flag : Bool) (w padc : ℕ)
    → (neg_flag && (padc == 48)) ≡ false
    → padded ds neg_flag w false padc
      ≡ (ds ++ sign neg_flag) ++ padding (w - length (ds ++ sign neg_flag)) padc
unfolding padded
padded-right ds true w padc plain = rw plain refl
padded-right ds false w padc plain = refl

module _ (ds : List ℕ) (pos : 1 ≤ length ds) (width : ℕ) where
  emit-left :
      (neg_flag : Bool) (padc : ℕ)
      → emit ds neg_flag width true padc ≡ laid_out (backwards ds) neg_flag width true padc
  unfolding emit laid_out
  emit-left neg_flag padc =
      let size : ℕ = length (ds ++ sign neg_flag) in
      let w : ℕ = size + (width - size) in
      let pad : ℕ = width - (length (backwards ds) + length (sign neg_flag)) in
      let z : w - size ≡ pad = omega (arith, length-sign ds neg_flag) in
      let some_digit : 1 ≤ size = omega (arith, length-append ds (sign neg_flag)) in
      rw (at_least width size, padded-left ds neg_flag w padc, z)
        (flush-swap_ends (ds ++ sign neg_flag) (padding pad 32) w
            (omega (arith, length-padding pad 32, z)) some_digit
          ∙ ap (λ l. l ++ padding pad 32) (backwards-sign ds neg_flag))

  emit-right :
      (neg_flag : Bool) (padc : ℕ)
      → (neg_flag && (padc == 48)) ≡ false
      → emit ds neg_flag width false padc ≡ laid_out (backwards ds) neg_flag width false padc
  unfolding emit laid_out
  emit-right neg_flag padc plain =
      let size : ℕ = length (ds ++ sign neg_flag) in
      let w : ℕ = size + (width - size) in
      let pad : ℕ = width - (length (backwards ds) + length (sign neg_flag)) in
      let z : w - size ≡ pad = omega (arith, length-sign ds neg_flag) in
      let some_digit : 1 ≤ size = omega (arith, length-append ds (sign neg_flag)) in
      let text : List ℕ = (ds ++ sign neg_flag) ++ padding pad padc in
      let full : w ≡ length text = omega (
        arith,
        length-append (ds ++ sign neg_flag) (padding pad padc),
        length-padding pad padc,
        z,
      ) in
      rw (at_least width size, padded-right ds neg_flag w padc plain, z, plain)
        (flush-whole text w full (omega (arith, full))
          ∙ backwards-append (ds ++ sign neg_flag) (padding pad padc)
          ∙ rw (backwards-padding pad padc, backwards-sign ds neg_flag) refl)

  emit-zeros : emit ds true width false 48 ≡ laid_out (backwards ds) true width false 48
  unfolding emit laid_out padded backwards
  emit-zeros =
      let size : ℕ = length (ds ++ 45 ∷ []) in
      let w : ℕ = size + (width - size) in
      let pad : ℕ = width - (length (backwards ds) + 1) in
      let z : w - size ≡ pad = omega (arith, length-sign ds true) in
      let text : List ℕ = ds ++ (padding pad 48 ++ 45 ∷ []) in
      let full : w ≡ length text = omega (
        arith,
        length-append ds (padding pad 48 ++ 45 ∷ []),
        length-append (padding pad 48) (45 ∷ []),
        length-append ds (45 ∷ []),
        length-padding pad 48,
        z,
      ) in
      rw (at_least width size, z)
        (flush-whole text w full (omega (arith, length-append ds (45 ∷ [])))
          ∙ backwards-append ds (padding pad 48 ++ 45 ∷ [])
          ∙ rw (backwards-append (padding pad 48) (45 ∷ []), backwards-padding pad 48) refl)

  emit-laid_out :
      (neg_flag ladjust : Bool) (padc : ℕ)
      → emit ds neg_flag width ladjust padc ≡ laid_out (backwards ds) neg_flag width ladjust padc
  emit-laid_out neg_flag true padc = emit-left neg_flag padc
  emit-laid_out false false padc = emit-right false padc refl
  emit-laid_out true false padc = elim (Bool-cases (padc == 48)) [
    | inl zeros ↦ let z : padc ≡ 48 = ground arith in rw z emit-zeros
    | inr plain ↦ emit-right true padc plain
  ]

backwards-backwards : (xs : List ℕ) → backwards (backwards xs) ≡ xs
unfolding backwards
backwards-backwards [] = refl
backwards-backwards (x ∷ xs) =
    backwards-append (backwards xs) (x ∷ []) ∙ ap (λ l. x ∷ l) (backwards-backwards xs)

length-low_digits :
    (rounds base : ℕ) (upcase : Bool) (u : ℕ) → 1 ≤ length (low_digits (suc rounds) base upcase u)
unfolding low_digits
length-low_digits rounds base upcase u = omega arith

pub print_num-text :
    (u base : ℕ) (neg_flag : Bool) (width : ℕ) (ladjust : Bool) (padc : ℕ) (upcase : Bool)
    → print_num u base neg_flag width ladjust padc upcase
      ≡ laid_out (numeral base upcase u) neg_flag width ladjust padc
unfolding print_num
print_num-text u base neg_flag width ladjust padc upcase =
    emit-laid_out (low_digits 32 base upcase u) (length-low_digits 31 base upcase u) width neg_flag
      ladjust padc

-- For a base from 2 to 36 and a 32-bit number, `print_num` prints the sign, the digits in
-- reading order and the padding where the flags ask for it, and the digits read back in that
-- base are the number.
pub print_num-laid_out :
    (u base : ℕ) (neg_flag : Bool) (width : ℕ) (ladjust : Bool) (padc : ℕ) (upcase : Bool)
    → 2 ≤ base
    → base ≤ 36
    → u < 2 ^ 32
    → (print_num u base neg_flag width ladjust padc upcase
        ≡ laid_out (numeral base upcase u) neg_flag width ladjust padc)
      × (value base (backwards (numeral base upcase u)) ≡ u)
print_num-laid_out u base neg_flag width ladjust padc upcase b b' lt = (
  print_num-text u base neg_flag width ladjust padc upcase,
  rw (backwards-backwards (low_digits 32 base upcase u))
      (value-low_digits 32 base upcase u b b' lt),
)
