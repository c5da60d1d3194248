-- ===== src/Print/Format.antt =====
-- `vprintfmt` of lib/print.c prints what a format that is written from directives asks for.
use spring_os.Base.{
  ℕ, zero, suc, ◌+◌, ◌*◌, ◌%◌, ◌-◌, ◌^◌, ◌<◌, ◌≡◌, refl, ap, inl, inr, Bool, true, false, ◌&&◌,
  Option, some, List, [], ◌∷◌, ◌++◌, ◌==◌, leb, ltb, if◌then◌else◌, length, arith, Bool-cases,
}
use spring_os.Base.{has}
use spring_os.Print.{
  print_signed, print_char, print_str, Arg, Output, with_word, with_text, scan, flag, width_of,
  skip_long, specifier, directive, join, after_directive, after_text, vprintfmt,
}
use spring_os.Print.Spelling.{
  Flag, plain, minus, zeros, Conversion, binary, decimal, octal, unsigned, lower_hex, upper_hex,
  character, string, Directive, letter, flag_text, width_text, long_text, spelled, argument,
  arguments, number, is_minus, pad_char, aligned, shown, formatted, are_digits, is_flag, IsWritten,
  AreWritten,
}
use spring_os.Print.Layout.{print_num-text}

scan-text : (xs : List ℕ) → has 37 xs ≡ false → scan xs ≡ (xs, [])
unfolding scan
scan-text [] h = refl
scan-text (x ∷ xs) h =
    let other : (x == 37) ≡ false = ground arith in rw (scan-text xs (ground arith), other) refl

scan-percent : (xs rest : List ℕ) → has 37 xs ≡ false → scan (xs ++ 37 ∷ rest) ≡ (xs, 37 ∷ rest)
unfolding scan
scan-percent [] rest h = refl
scan-percent (x ∷ xs) rest h =
    let other : (x == 37) ≡ false = ground arith in
    rw (scan-percent xs rest (ground arith), other) refl

width_of-text :
    (n : ℕ) (ds : List ℕ) (c : ℕ) (rest : List ℕ)
    → are_digits ds ≡ true
    → 57 < c
    → width_of n (width_text ds (c ∷ rest)) ≡ (number n ds, c ∷ rest)
unfolding width_of
width_of-text n [] c rest h big =
    let no : (leb 48 c && leb c 57) ≡ false = ground arith in rw no refl
width_of-text n (d ∷ ds) c rest h big =
    let yes : (leb 48 (48 + d) && leb (48 + d) 57) ≡ true = ground arith in
    let value : 48 + d - 48 ≡ d = omega arith in
    rw (yes, value) (width_of-text (n * 10 + d) ds c rest (ground arith) big)

letter-big : (x : Conversion) → 57 < letter x
letter-big (binary n) = omega arith
letter-big (decimal n) = omega arith
letter-big (octal n) = omega arith
letter-big (unsigned n) = omega arith
letter-big (lower_hex n) = omega arith
letter-big (upper_hex n) = omega arith
letter-big (character n) = omega arith
letter-big (string s) = omega arith

letter-long : (x : Conversion) → (letter x == 108) ≡ false
letter-long (binary n) = refl
letter-long (decimal n) = refl
letter-long (octal n) = refl
letter-long (unsigned n) = refl
letter-long (lower_hex n) = refl
letter-long (upper_hex n) = refl
letter-long (character n) = refl
letter-long (string s) = refl

-- The length mark and the letter behind the width.
width_of-long :
    (ds : List ℕ) (long : Bool) (x : Conversion) (rest : List ℕ)
    → are_digits ds ≡ true
    → (width_of 0 (width_text ds (long_text long (letter x ∷ rest)))).0 ≡ number 0 ds
width_of-long ds true x rest h =
    ap (λ w. w.0) (width_of-text 0 ds 108 (letter x ∷ rest) h (omega arith))
width_of-long ds false x rest h =
    ap (λ w. w.0) (width_of-text 0 ds (letter x) rest h (letter-big x))

skip_long-width_of :
    (ds : List ℕ) (long : Bool) (x : Conversion) (rest : List ℕ)
    → are_digits ds ≡ true
    → skip_long (width_of 0 (width_text ds (long_text long (letter x ∷ rest)))).1 ≡ letter x ∷ rest
unfolding skip_long
skip_long-width_of ds true x rest h =
    rw (width_of-text 0 ds 108 (letter x ∷ rest) h (omega arith)) refl
skip_long-width_of ds false x rest h =
    rw (width_of-text 0 ds (letter x) rest h (letter-big x), letter-long x) refl

flag-other : (c : ℕ) (rest : List ℕ) → 48 < c → flag (c ∷ rest) ≡ (false, (32, c ∷ rest))
unfolding flag
flag-other c rest big =
    let no : (c == 45) ≡ false = ground arith in
    let no' : (c == 48) ≡ false = ground arith in rw (no, no') refl

flag-long :
    (long : Bool) (x : Conversion) (rest : List ℕ)
    → flag (long_text long (letter x ∷ rest)) ≡ (false, (32, long_text long (letter x ∷ rest)))
flag-long true x rest = flag-other 108 (letter x ∷ rest) (omega arith)
flag-long false x rest = flag-other (letter x) rest (omega (arith, letter-big x))

flag-text :
    (f : Flag) (ds : List ℕ) (long : Bool) (x : Conversion) (rest : List ℕ)
    → is_flag f ds ≡ false
    → flag (flag_text f (width_text ds (long_text long (letter x ∷ rest))))
      ≡ (is_minus f, (pad_char f, width_text ds (long_text long (letter x ∷ rest))))
unfolding flag
flag-text minus ds long x rest h = refl
flag-text zeros ds long x rest h = refl
flag-text plain [] long x rest h = flag-long long x rest
flag-text plain (zero ∷ ds) long x rest h = cc
flag-text plain (suc d ∷ ds) long x rest h =
    flag-other (48 + suc d) (width_text ds (long_text long (letter x ∷ rest))) (omega arith)

module _ (w : ℕ) (ladjust : Bool) where
  print_char-aligned : (c : ℕ) → print_char c w ladjust ≡ aligned (c ∷ []) w ladjust
  unfolding print_char
  print_char-aligned c =
      let least : (if ltb w 1 then 1 else w) - 1 ≡ w - 1 = ground arith in rw least refl

  print_str-aligned : (s : List ℕ) → print_str s w ladjust ≡ aligned s w ladjust
  unfolding print_str
  print_str-aligned s =
      let least : (if ltb w (length s) then length s else w) - length s ≡ w - length s =
        ground arith in
      rw least refl

  print_signed-shown :
      (n padc : ℕ) → print_signed n w ladjust padc ≡ shown (decimal n) w ladjust padc
  unfolding print_signed
  print_signed-shown n padc = elim (Bool-cases (ltb n (2 ^ 31))) [
    | inl positive ↦
        let same : leb (2 ^ 31) n ≡ false = ground arith in
        rw (positive, same) (print_num-text n 10 false w ladjust padc false)
    | inr negative ↦
        let same : leb (2 ^ 31) n ≡ true = ground arith in
        let size : (2 ^ 32 - n) % 2 ^ 32 ≡ 2 ^ 32 - n = ground arith in
        rw (negative, same, size) (print_num-text (2 ^ 32 - n) 10 true w ladjust padc false)
  ]

module _ (ladjust : Bool) (padc w : ℕ) (rest : List ℕ) (args : List Arg)
    (fits : w < 2 ^ 31 - 70) where
  abbrev given : List ℕ → Option Output
  given t = some (record { printed = t; fmt = rest; args = args })

  room : leb (2 ^ 31 - 70) w ≡ false
  room = ground (arith, fits)

  specifier-shown :
      (x : Conversion)
      → specifier ladjust padc w (letter x ∷ rest) (argument x ∷ args)
        ≡ given (shown x w ladjust padc)
  unfolding specifier with_word with_text
  specifier-shown (binary n) = rw room (ap given (print_num-text n 2 false w ladjust padc false))
  specifier-shown (decimal n) = rw room (ap given (print_signed-shown w ladjust n padc))
  specifier-shown (octal n) = rw room (ap given (print_num-text n 8 false w ladjust padc false))
  specifier-shown (unsigned n) = rw room (ap given (print_num-text n 10 false w ladjust padc false))
  specifier-shown (lower_hex n) =
      rw room (ap given (print_num-text n 16 false w ladjust padc false))
  specifier-shown (upper_hex n) = rw room (ap given (print_num-text n 16 false w ladjust padc true))
  specifier-shown (character n) = ap given (print_char-aligned w ladjust (n % 256))
  specifier-shown (string s) = ap given (print_str-aligned w ladjust s)

-- What stands behind the '%' of a directive.
abbrev behind : Directive → List ℕ → List ℕ
behind d rest =
    flag_text d.flag (width_text d.width (long_text d.long (letter d.conversion ∷ rest)))

directive-shown :
    (d : Directive) (rest : List ℕ) (args : List Arg)
    → IsWritten d
    → directive (behind d rest) (argument d.conversion ∷ args)
      ≡ some (record {
        printed = shown d.conversion (number 0 d.width) (is_minus d.flag) (pad_char d.flag);
        fmt = rest;
        args = args;
      })
unfolding directive
directive-shown d rest args v =
    let small : leb (2 ^ 31) (number 0 d.width) ≡ false = ground (arith, v.fits) in
    rw
      (
        flag-text d.flag d.width d.long d.conversion rest v.no_flag,
        width_of-long d.width d.long d.conversion rest v.digits,
        skip_long-width_of d.width d.long d.conversion rest v.digits,
        small,
      )
      (specifier-shown (is_minus d.flag) (pad_char d.flag) (number 0 d.width) rest args v.fits
        d.conversion)

-- For a format written from directives (text without '%', '%', a flag '-' or '0' or none, the
-- digits of a width below 2^31 - 70 that do not start like a flag, an 'l' or none, and one of
-- the letters b, d, o, u, x, X, c, s) and a last text without '%', with the argument of each
-- directive in order and more rounds than directives, `vprintfmt` returns a text: the texts,
-- with each argument laid out for its letter in its width, aligned left or filled up with blanks
-- or zeros as the flag says, a decimal as a signed 32-bit number.
pub vprintfmt-formatted :
    (ds : List Directive) (tail : List ℕ) (n : ℕ)
    → AreWritten ds
    → has 37 tail ≡ false
    → length ds < n
    → vprintfmt n (spelled ds tail) (arguments ds) ≡ some (formatted ds tail)
unfolding vprintfmt after_text after_directive join
vprintfmt-formatted ds tail zero v plain_tail lt = absurd (omega arith)
vprintfmt-formatted [] tail (suc n) v plain_tail lt = rw (scan-text tail plain_tail) refl
vprintfmt-formatted (d ∷ ds) tail (suc n) v plain_tail lt =
    rw
      (
        scan-percent d.before (behind d (spelled ds tail)) v.0.text_only,
        directive-shown d (spelled ds tail) (arguments ds) v.0,
        vprintfmt-formatted ds tail n v.1 plain_tail (omega (arith, lt)),
      )
      refl
