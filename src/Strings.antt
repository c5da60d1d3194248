-- ===== src/Strings.antt =====
-- The memory and string functions of lib/string.c, on the bytes of memory by their addresses. The
-- loops have so many rounds at most; a string function that has not ended by then gives none.
pub mod Moves
pub mod Copying
pub mod Filling
pub mod Compare
mod Examples
use spring_os.Base.{
  bit_or, ℕ, zero, suc, ◌+◌, ◌*◌, ◌-◌, ◌/◌, ◌%◌, ◌^◌, Bool, true, false, not, ◌&&◌, ◌||◌, Option,
  none, some, ltb, leb, ◌==◌, if◌then◌else◌, update,
}
use spring_os.Base.Bits.{byte_of, word_of}

abbrev pub Memory : Type 0
Memory = ℕ → ℕ

-- An address after some bytes, on 32 bits.
unfoldable pub after : ℕ → ℕ → ℕ
after p n = (p + n) % 2 ^ 32

-- A machine word at an address, least byte first.
unfoldable pub load_word : Memory → ℕ → ℕ
load_word m p = word_of (λ t. m (p + t))

unfoldable pub store_word : Memory → ℕ → ℕ → Memory
store_word m p w a = if leb p a && ltb a (p + 4) then byte_of w (a - p) else m a

-- The three variables of `memcpy` while it runs.
pub record Copy : Type 0 where
  pub memory : Memory
  pub dst : ℕ
  pub src : ℕ

-- One byte, and one word.
unfoldable pub copy_byte : Copy → Copy
copy_byte c = record {
  memory = update c.memory c.dst (c.memory c.src);
  dst = after c.dst 1;
  src = after c.src 1;
}

unfoldable pub copy_word : Copy → Copy
copy_word c = record {
  memory = store_word c.memory c.dst (load_word c.memory c.src);
  dst = after c.dst 4;
  src = after c.src 4;
}

-- `while (test) step;`
unfoldable pub while_do : {S : Type 0} → ℕ → (S → Bool) → (S → S) → S → S
while_do zero test step c = c
while_do (suc rounds) test step c =
    let rest = while_do rounds test step (step c) in if test c then rest else c

-- The bytes up to `max`, the bytes before a word boundary, and the words that fit.
unfoldable pub copy_bytes : ℕ → ℕ → Copy → Copy
copy_bytes rounds max = while_do rounds (λ c. ltb c.dst max) copy_byte

unfoldable pub copy_head : ℕ → ℕ → Copy → Copy
copy_head rounds max = while_do rounds (λ c. not (c.dst % 4 == 0) && ltb c.dst max) copy_byte

unfoldable pub copy_words : ℕ → ℕ → Copy → Copy
copy_words rounds max = while_do rounds (λ c. leb (after c.dst 4) max) copy_word

unfoldable pub memcpy : Memory → ℕ → ℕ → ℕ → Memory
memcpy m dst src n =
    let max = after dst n in
    let start : Copy = record { memory = m; dst = dst; src = src } in
    if src % 4 == dst % 4
    then (copy_bytes n max (copy_words n max (copy_head n max start))).memory
    else (copy_bytes n max start).memory

-- The two variables of `memset` while it runs.
pub record Fill : Type 0 where
  pub memory : Memory
  pub dst : ℕ

unfoldable pub fill_byte : ℕ → Fill → Fill
fill_byte byte f = record { memory = update f.memory f.dst byte; dst = after f.dst 1 }

unfoldable pub fill_word : ℕ → Fill → Fill
fill_word word f = record { memory = store_word f.memory f.dst word; dst = after f.dst 4 }

-- `byte | byte << 8 | byte << 16 | byte << 24`
unfoldable pub four_times : ℕ → ℕ
four_times byte =
    bit_or (bit_or (bit_or byte (byte * 2 ^ 8)) (byte * 2 ^ 16)) (byte * 2 ^ 24 % 2 ^ 32)

unfoldable pub memset : Memory → ℕ → ℕ → ℕ → Memory
memset m dst c n =
    let max = after dst n in
    let byte = c % 256 in
    let start : Fill = record { memory = m; dst = dst } in
    let head = while_do n (λ f. not (f.dst % 4 == 0) && ltb f.dst max) (fill_byte byte) start in
    let words = while_do n (λ f. leb (after f.dst 4) max) (fill_word (four_times byte)) head in
    (while_do n (λ f. ltb f.dst max) (fill_byte byte) words).memory

unfoldable pub strlen : ℕ → Memory → ℕ → Option ℕ
strlen zero m s = none
strlen (suc rounds) m s =
    let rest = strlen rounds m (after s 1) in
    if m s == 0 then some 0 else elim rest [ none ↦ none | some n ↦ some (n + 1) ]

unfoldable pub strcpy : ℕ → Memory → ℕ → ℕ → Option Memory
strcpy zero m dst src = none
strcpy (suc rounds) m dst src =
    let rest = strcpy rounds (update m dst (m src)) (after dst 1) (after src 1) in
    if m src == 0 then some (update m dst (m src)) else rest

-- A `char` as an `int`, in 32 bits.
unfoldable pub as_int : ℕ → ℕ
as_int c = if ltb c 128 then c else c + (2 ^ 32 - 256)

-- The address of the first character that is `c`, or the null pointer, 0.
unfoldable pub strchr : ℕ → Memory → ℕ → ℕ → Option ℕ
strchr zero m s c = none
strchr (suc rounds) m s c =
    let rest = strchr rounds m (after s 1) c in
    if m s == 0 then some 0 else if as_int (m s) == c then some s else rest

-- The order of two characters as -1, 0 and 1: a `char` as a `u_int` keeps its order.
pub data Order : Type 0 where
  below same above : Order

unfoldable pub order : ℕ → ℕ → Order
order a b = if ltb a b then below else if ltb b a then above else same

unfoldable pub strcmp : ℕ → Memory → ℕ → ℕ → Option Order
strcmp zero m p q = none
strcmp (suc rounds) m p q =
    let rest = strcmp rounds m (after p 1) (after q 1) in
    if not (m p == 0) && (m p == m q) then rest else some (order (m p) (m q))
