-- ===== src/Print.antt =====
-- Formatted output: lib/print.c. `int` and `long` have 32 bits; a string is the list of its
-- characters before the end mark; the characters handed to `out` are the result, in order.
pub mod Digits
pub mod Reversal
pub mod Layout
pub mod Spelling
pub mod Format
pub mod Examples
use spring_os.Base.{
  ℕ, zero, suc, ◌+◌, ◌-◌, ◌*◌, ◌/◌, ◌%◌, ◌^◌, Bool, true, false, not, ◌&&◌, ◌||◌, Option, none,
  some, List, [], ◌∷◌, ◌++◌, map, leb, ltb, ◌==◌, if◌then◌else◌, update, length,
}

-- `n` times the character `c`.
unfoldable pub padding : ℕ → ℕ → List ℕ
padding zero c = []
padding (suc n) c = c ∷ padding n c

unfoldable pub print_char : ℕ → ℕ → Bool → List ℕ
print_char c length ladjust =
    let width = if ltb length 1 then 1 else length in
    if ladjust then c ∷ padding (width - 1) 32 else padding (width - 1) 32 ++ c ∷ []

unfoldable pub print_str : List ℕ → ℕ → Bool → List ℕ
print_str s width ladjust =
    let len = length s in
    let width = if ltb width len then len else width in
    if ladjust then s ++ padding (width - len) 32 else padding (width - len) 32 ++ s

-- '0' + tmp, 'A' + tmp - 10 or 'a' + tmp - 10
unfoldable pub digit_char : Bool → ℕ → ℕ
digit_char upcase tmp =
    if leb tmp 9 then 48 + tmp else if upcase then 65 + tmp - 10 else 97 + tmp - 10

-- The loop that writes the digits, lowest first, for so many rounds at most.
unfoldable pub low_digits : ℕ → ℕ → Bool → ℕ → List ℕ
low_digits zero base upcase u = []
low_digits (suc rounds) base upcase u =
    let rest = low_digits rounds base upcase (u / base) in
    digit_char upcase (u % base) ∷ (if u / base == 0 then [] else rest)

-- The loop that swaps the ends of `buf` until they meet, for so many rounds at most.
unfoldable pub swap_ends : ℕ → ℕ → ℕ → (ℕ → ℕ) → ℕ → ℕ
swap_ends zero begin end buf = buf
swap_ends (suc rounds) begin end buf =
    let swapped = update (update buf begin (buf end)) end (buf begin) in
    let rest = swap_ends rounds (begin + 1) (end - 1) swapped in if ltb begin end then rest else buf

-- A list as a buffer, and the first characters of a buffer.
unfoldable pub buffer : List ℕ → ℕ → ℕ
buffer [] i = 0
buffer (x ∷ xs) zero = x
buffer (x ∷ xs) (suc i) = buffer xs i

unfoldable pub flush : ℕ → (ℕ → ℕ) → List ℕ
flush zero buf = []
flush (suc n) buf = buf 0 ∷ flush n (λ i. buf (suc i))

-- What `print_num` has in its buffer before the reversal.
unfoldable pub padded : List ℕ → Bool → ℕ → Bool → ℕ → List ℕ
padded digits neg_flag width ladjust padc =
    let written = digits ++ (if neg_flag then 45 ∷ [] else []) in
    let padc = if ladjust then 32 else padc in
    if neg_flag && not ladjust && (padc == 48)
    then digits ++ (padding (width - length written) padc ++ 45 ∷ [])
    else written ++ padding (width - length written) padc

-- `print_num` from the padding on, for the digits that it has written.
unfoldable pub emit : List ℕ → Bool → ℕ → Bool → ℕ → List ℕ
emit digits neg_flag width ladjust padc =
    let actual_length = length (digits ++ (if neg_flag then 45 ∷ [] else [])) in
    let width = if ltb width actual_length then actual_length else width in
    let end = if ladjust then actual_length - 1 else width - 1 in
    flush width (swap_ends width 0 end (buffer (padded digits neg_flag width ladjust padc)))

unfoldable pub print_num : ℕ → ℕ → Bool → ℕ → Bool → ℕ → Bool → List ℕ
print_num u base neg_flag width ladjust padc upcase =
    emit (low_digits 32 base upcase u) neg_flag width ladjust padc

-- One argument of a `va_list`.
pub data Arg : Type 0 where
  word : ℕ → Arg
  text : List ℕ → Arg

-- What a directive prints, the format behind it, and the arguments behind its own.
pub record Output : Type 0 where
  pub printed : List ℕ
  pub fmt : List ℕ
  pub args : List Arg

-- `va_arg` of an integer, printed by `print`; of a string. None if the argument is not there.
unfoldable pub with_word : (ℕ → List ℕ) → List ℕ → List Arg → Option Output
with_word print rest [] = none
with_word print rest (text s ∷ args) = none
with_word print rest (word n ∷ args) = some (record { printed = print n; fmt = rest; args = args })

unfoldable pub with_text : (List ℕ → List ℕ) → List ℕ → List Arg → Option Output
with_text print rest [] = none
with_text print rest (word n ∷ args) = none
with_text print rest (text s ∷ args) = some (record { printed = print s; fmt = rest; args = args })

-- `num < 0` prints the sign and `-num`.
unfoldable pub print_signed : ℕ → ℕ → Bool → ℕ → List ℕ
print_signed num width ladjust padc =
    if leb (2 ^ 31) num
    then print_num ((2 ^ 32 - num) % 2 ^ 32) 10 true width ladjust padc false
    else print_num num 10 false width ladjust padc false

-- The text before the next '%', and the format from there.
unfoldable pub scan : List ℕ → List ℕ × List ℕ
scan [] = ([], [])
scan (c ∷ fmt) = let rest = scan fmt in if c == 37 then ([], c ∷ fmt) else (c ∷ rest.0, rest.1)

-- The flag: left alignment, padding, and the format behind it.
unfoldable pub flag : List ℕ → Bool × (ℕ × List ℕ)
flag [] = (false, (32, []))
flag (c ∷ fmt) =
    if c == 45
    then (true, (32, fmt))
    else if c == 48
    then (false, (48, fmt))
    else (false, (32, c ∷ fmt))

-- The width, and the format behind it. The source adds it up in an `int`: see `directive`.
unfoldable pub width_of : ℕ → List ℕ → ℕ × List ℕ
width_of width [] = (width, [])
width_of width (c ∷ fmt) =
    let rest = width_of (width * 10 + (c - 48)) fmt in
    if leb 48 c && leb c 57 then rest else (width, c ∷ fmt)

-- `int` and `long` have the same size.
unfoldable pub skip_long : List ℕ → List ℕ
skip_long [] = []
skip_long (c ∷ fmt) = if c == 108 then fmt else c ∷ fmt

-- The switch on the specifier. `print_num` adds 70 to the width, for its buffer: no result if the
-- sum is no `int`. At the end of the format, which is the end of the list, nothing is printed.
unfoldable pub specifier : Bool → ℕ → ℕ → List ℕ → List Arg → Option Output
specifier ladjust padc width [] args = some (record { printed = []; fmt = []; args = args })
specifier ladjust padc width (c ∷ rest) args =
    let number : (ℕ → List ℕ) → Option Output =
      λ print. if leb (2 ^ 31 - 70) width then none else with_word print rest args in
    let print : ℕ → Bool → ℕ → List ℕ =
      λ base upcase num. print_num num base false width ladjust padc upcase in
    if c == 98
    then number (print 2 false)
    else if (c == 100) || (c == 68)
    then number (λ num. print_signed num width ladjust padc)
    else if (c == 111) || (c == 79)
    then number (print 8 false)
    else if (c == 117) || (c == 85)
    then number (print 10 false)
    else if c == 120
    then number (print 16 false)
    else if c == 88
    then number (print 16 true)
    else if c == 99
    then with_word (λ num. print_char (num % 256) width ladjust) rest args
    else if c == 115
    then with_text (λ s. print_str s width ladjust) rest args
    else some (record { printed = c ∷ []; fmt = rest; args = args })

-- `%[flags][width][length]<specifier>`, from behind the '%'. There is no result if the width does
-- not fit in an `int`, which C leaves undefined.
unfoldable pub directive : List ℕ → List Arg → Option Output
directive fmt args =
    let f = flag fmt in
    let w = width_of 0 f.1.1 in
    let printed = specifier f.0 f.1.0 w.0 (skip_long w.1) args in
    if leb (2 ^ 31) w.0 then none else printed

-- The text, what a directive printed, and what the rest of the format printed.
unfoldable pub join : List ℕ → List ℕ → Option (List ℕ) → Option (List ℕ)
join before printed none = none
join before printed (some tail) = some (before ++ (printed ++ tail))

-- The rounds of `vprintfmt` after the text before a '%', with `later` for the next rounds.
module _ (later : List ℕ → List Arg → Option (List ℕ)) where
  unfoldable pub after_directive : List ℕ → Option Output → Option (List ℕ)
  after_directive before none = none
  after_directive before (some out) = join before out.printed (later out.fmt out.args)

  unfoldable pub after_text : List ℕ → List ℕ → List Arg → Option (List ℕ)
  after_text before [] args = some before
  after_text before (_ ∷ rest) args = after_directive before (directive rest args)

-- `vprintfmt`, for so many directives at most.
unfoldable pub vprintfmt : ℕ → List ℕ → List Arg → Option (List ℕ)
vprintfmt zero fmt args = none
vprintfmt (suc rounds) fmt args =
    after_text (λ rest left. vprintfmt rounds rest left) (scan fmt).0 (scan fmt).1 args
