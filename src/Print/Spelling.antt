-- ===== src/Print/Spelling.antt =====
-- Formats of lib/print.c as they are written, from text and directives, and what they are meant to
-- print.
use spring_os.Base.{
  ℕ, zero, ◌+◌, ◌*◌, ◌%◌, ◌-◌, ◌^◌, ◌<◌, ◌≡◌, Bool, true, false, ◌&&◌, List, [], ◌∷◌, ◌++◌, ltb,
  if◌then◌else◌, length, has,
}
use spring_os.Print.{padding, Arg, word, text}
use spring_os.Print.Layout.{numeral, laid_out}

-- A directive's flag, and its specifier with the argument that it prints.
pub data Flag : Type 0 where
  plain minus zeros : Flag

pub data Conversion : Type 0 where
  binary decimal octal unsigned lower_hex upper_hex character : ℕ → Conversion
  string : List ℕ → Conversion

pub record Directive : Type 0 where
  pub before : List ℕ
  pub flag : Flag
  pub width : List ℕ
  pub long : Bool
  pub conversion : Conversion

-- How it is written: the text before it, '%', the flag, the digits of the width, 'l', the letter.
abbrev pub letter : Conversion → ℕ
letter (binary n) = 98
letter (decimal n) = 100
letter (octal n) = 111
letter (unsigned n) = 117
letter (lower_hex n) = 120
letter (upper_hex n) = 88
letter (character n) = 99
letter (string s) = 115

abbrev pub flag_text : Flag → List ℕ → List ℕ
flag_text plain rest = rest
flag_text minus rest = 45 ∷ rest
flag_text zeros rest = 48 ∷ rest

abbrev pub width_text : List ℕ → List ℕ → List ℕ
width_text [] rest = rest
width_text (d ∷ ds) rest = (48 + d) ∷ width_text ds rest

abbrev pub long_text : Bool → List ℕ → List ℕ
long_text true rest = 108 ∷ rest
long_text false rest = rest

abbrev pub spelled : List Directive → List ℕ → List ℕ
spelled [] tail = tail
spelled (d ∷ ds) tail =
    d.before
    ++ 37
      ∷ flag_text d.flag
          (width_text d.width (long_text d.long (letter d.conversion ∷ spelled ds tail)))

-- Its argument.
abbrev pub argument : Conversion → Arg
argument (binary n) = word n
argument (decimal n) = word n
argument (octal n) = word n
argument (unsigned n) = word n
argument (lower_hex n) = word n
argument (upper_hex n) = word n
argument (character n) = word n
argument (string s) = text s

abbrev pub arguments : List Directive → List Arg
arguments [] = []
arguments (d ∷ ds) = argument d.conversion ∷ arguments ds

-- The number that the digits of a width stand for.
abbrev pub number : ℕ → List ℕ → ℕ
number n [] = n
number n (d ∷ ds) = number (n * 10 + d) ds

abbrev pub is_minus : Flag → Bool
is_minus plain = false
is_minus minus = true
is_minus zeros = false

abbrev pub pad_char : Flag → ℕ
pad_char plain = 32
pad_char minus = 32
pad_char zeros = 48

-- A text, filled up with blanks to a width.
abbrev pub aligned : List ℕ → ℕ → Bool → List ℕ
aligned s width ladjust =
    if ladjust then s ++ padding (width - length s) 32 else padding (width - length s) 32 ++ s

-- What a directive is meant to print: a decimal is signed.
abbrev pub shown : Conversion → ℕ → Bool → ℕ → List ℕ
shown (binary n) width ladjust padc = laid_out (numeral 2 false n) false width ladjust padc
shown (decimal n) width ladjust padc =
    if ltb n (2 ^ 31)
    then laid_out (numeral 10 false n) false width ladjust padc
    else laid_out (numeral 10 false (2 ^ 32 - n)) true width ladjust padc
shown (octal n) width ladjust padc = laid_out (numeral 8 false n) false width ladjust padc
shown (unsigned n) width ladjust padc = laid_out (numeral 10 false n) false width ladjust padc
shown (lower_hex n) width ladjust padc = laid_out (numeral 16 false n) false width ladjust padc
shown (upper_hex n) width ladjust padc = laid_out (numeral 16 true n) false width ladjust padc
shown (character n) width ladjust padc = aligned (n % 256 ∷ []) width ladjust
shown (string s) width ladjust padc = aligned s width ladjust

abbrev pub formatted : List Directive → List ℕ → List ℕ
formatted [] tail = tail
formatted (d ∷ ds) tail =
    d.before
    ++ (shown d.conversion (number 0 d.width) (is_minus d.flag) (pad_char d.flag)
        ++ formatted ds tail)

-- A directive that reads back: no '%' in the text, digits below 10 that do not start like a flag,
-- and a width with room for the buffer of `print_num`.
abbrev pub are_digits : List ℕ → Bool
are_digits [] = true
are_digits (d ∷ ds) = ltb d 10 && are_digits ds

abbrev pub is_flag : Flag → List ℕ → Bool
is_flag plain (zero ∷ ds) = true
is_flag plain ds = false
is_flag minus ds = false
is_flag zeros ds = false

pub record IsWritten (d : Directive) : Type 0 where
  pub text_only : has 37 d.before ≡ false
  pub digits : are_digits d.width ≡ true
  pub no_flag : is_flag d.flag d.width ≡ false
  pub fits : number 0 d.width < 2 ^ 31 - 70

abbrev pub AreWritten : List Directive → Type 0
AreWritten [] = Unit {0}
AreWritten (d ∷ ds) = IsWritten d × AreWritten ds
