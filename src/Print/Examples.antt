-- ===== src/Print/Examples.antt =====
-- Runs of `print_num` and `vprintfmt` of lib/print.c.
use spring_os.Base.{ℕ, ◌≡◌, refl, true, false, some, List, [], ◌∷◌, arith}
use spring_os.Print.{
  word, print_num, vprintfmt, scan, directive, low_digits, emit, flush, swap_ends, buffer, padded,
  padding, digit_char, after_text, after_directive, specifier, skip_long, width_of, flag, with_word,
  join, print_signed,
}
use spring_os.Print.Digits.{value}
use spring_os.Print.Reversal.{backwards}
use spring_os.Print.Layout.{numeral, laid_out, print_num-laid_out}
use spring_os.Print.Spelling.{
  Directive, minus, zeros, decimal, string, spelled, arguments, formatted, AreWritten,
}
use spring_os.Print.Format.{vprintfmt-formatted}

print_num-laid_out_example :
    (print_num 255 16 true 6 false 48 true ≡ laid_out (numeral 16 true 255) true 6 false 48)
    × (value 16 (backwards (numeral 16 true 255)) ≡ 255)
print_num-laid_out_example =
    print_num-laid_out 255 16 true 6 false 48 true (omega arith) (omega arith) (omega arith)

-- "-000FF"
negative_hex : print_num 255 16 true 6 false 48 true ≡ 45 ∷ 48 ∷ 48 ∷ 48 ∷ 70 ∷ 70 ∷ []
unfolding print_num emit flush low_digits swap_ends buffer padded padding digit_char
negative_hex = refl

-- "a%-3dz" and 5
abbrev format : List ℕ
format = 97 ∷ 37 ∷ 45 ∷ 51 ∷ 100 ∷ 122 ∷ []

printed : vprintfmt 7 format (word 5 ∷ []) ≡ some (97 ∷ 53 ∷ 32 ∷ 32 ∷ 122 ∷ [])
unfolding vprintfmt after_text scan after_directive directive specifier skip_long width_of flag
    with_word join print_signed print_num emit flush low_digits swap_ends buffer padded padding
    digit_char
printed = refl

-- "a%-3d%08ls!" with -5 and "ok"
abbrev directives : List Directive
directives =
    record {
      before = 97 ∷ [];
      flag = minus;
      width = 3 ∷ [];
      long = false;
      conversion = decimal 0xfffffffb;
    }
    ∷ record {
      before = [];
      flag = zeros;
      width = 8 ∷ [];
      long = true;
      conversion = string (111 ∷ 107 ∷ []);
    }
    ∷ []

directives-AreWritten : AreWritten directives
directives-AreWritten = (
  record { text_only = refl; digits = refl; no_flag = refl; fits = omega arith },
  (record { text_only = refl; digits = refl; no_flag = refl; fits = omega arith }, tt),
)

vprintfmt-formatted_example :
    vprintfmt 3 (spelled directives (33 ∷ [])) (arguments directives)
    ≡ some (formatted directives (33 ∷ []))
vprintfmt-formatted_example =
    vprintfmt-formatted directives (33 ∷ []) 3 directives-AreWritten refl (omega arith)
