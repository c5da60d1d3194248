-- ===== src/Strings/Filling.antt =====
-- The three loops of `memset` (lib/string.c) together fill every byte.
use spring_os.Base.{
  ℕ, zero, suc, ◌+◌, ◌*◌, ◌-◌, ◌/◌, ◌%◌, ◌^◌, ◌≤◌, ◌<◌, ◌≡◌, refl, ◌∙◌, subst, inl, inr, Bool, true,
  false, not, ◌&&◌, bit_or, ltb, leb, ◌==◌, if◌then◌else◌, arith, Bool-cases,
}
use spring_os.Base.Bits.{byte_of, bit_or-div, bit_or-low, bit_or-zero, zero-bit_or}
use spring_os.Strings.{
  Memory, after, store_word, Fill, fill_byte, fill_word, four_times, while_do, memset,
}

-- From `f`, `n` more bytes are filled.
record Filled (byte : ℕ) (f : Fill) (n : ℕ) (g : Fill) : Type 0 where
  memory : (a : ℕ) → g.memory a ≡ (if leb f.dst a && ltb a (f.dst + n) then byte else f.memory a)
  dst : g.dst ≡ f.dst + n

Filled-zero : (byte : ℕ) (f : Fill) → Filled byte f 0 f
Filled-zero byte f = record { memory = λ a. ground arith; dst = omega arith }

Filled-trans :
    {byte : ℕ} {f g h : Fill} {a b : ℕ}
    → Filled byte f a g
    → Filled byte g b h
    → Filled byte f (a + b) h
Filled-trans r s = record {
  memory = λ x. ground (arith, r.memory x, s.memory x, r.dst);
  dst = omega (arith, r.dst, s.dst);
}

record Ended (byte : ℕ) (test : Fill → Bool) (f : Fill) (n : ℕ) (g : Fill) : Type 0 where
  moved : ℕ
  within : moved ≤ n
  filled : Filled byte f moved g
  ended : test g ≡ false

-- `n` bytes are left up to `max`, and no address wraps around.
record Room (max : ℕ) (f : Fill) (n : ℕ) : Type 0 where
  ends : f.dst + n ≡ max
  below : max + 4 < 2 ^ 32

Room-later :
    {byte max : ℕ} {f g : Fill} {n a : ℕ}
    → Room max f n
    → a ≤ n
    → Filled byte f a g
    → Room max g (n - a)
Room-later r le s = record { ends = omega (arith, r.ends, le, s.dst); below = r.below }

module _ (byte max w : ℕ) (pos : 0 < w) (test : Fill → Bool) (step : Fill → Fill)
    (move : (f : Fill) (n : ℕ)
      → Room max f n
      → test f ≡ true
      → (w ≤ n) × Filled byte f w (step f)) where
  while_do-Ended :
      (rounds n : ℕ) (f : Fill)
      → n ≤ rounds
      → Room max f n
      → Ended byte test f n (while_do rounds test step f)
  unfolding while_do
  while_do-Ended zero n f le r = record {
    moved = 0;
    within = omega arith;
    filled = Filled-zero byte f;
    ended = elim (Bool-cases (test f)) [
      | inl more ↦ absurd (omega (arith, le, pos, (move f n r more).0))
      | inr done ↦ done
    ];
  }
  while_do-Ended (suc rounds) n f le r = elim (Bool-cases (test f)) [
    | inr done ↦
        rw done
          (record { moved = 0; within = omega arith; filled = Filled-zero byte f; ended = done })
    | inl more ↦
        let (enough, s) = move f n r more in
        let t =
          while_do-Ended rounds (n - w) (step f) (omega (arith, le, pos, enough))
            (Room-later r enough s) in
        rw more (record {
          moved = w + t.moved;
          within = omega (arith, t.within, enough);
          filled = Filled-trans s t.filled;
          ended = t.ended;
        })
  ]

fill_byte-Filled :
    (byte max : ℕ) (f : Fill) (n : ℕ)
    → Room max f n
    → f.dst < max
    → (1 ≤ n) × Filled byte f 1 (fill_byte byte f)
unfolding fill_byte after
fill_byte-Filled byte max f n r lt = (
  omega (arith, r.ends, lt),
  record { memory = λ a. ground arith; dst = omega (arith, r.below, lt) },
)

bit_or-above_8 : (x y : ℕ) → x < 2 ^ 8 → y % 2 ^ 8 ≡ 0 → bit_or x y ≡ x + y
bit_or-above_8 x y lt low =
    let none_high : x / 2 ^ 8 ≡ 0 = omega (arith, lt) in
    let own_low : x % 2 ^ 8 ≡ x = omega (arith, lt) in
    let high : bit_or x y / 2 ^ 8 ≡ y / 2 ^ 8 =
      bit_or-div 8 x y ∙ rw none_high (zero-bit_or (y / 2 ^ 8)) in
    let rest : bit_or x y % 2 ^ 8 ≡ x = bit_or-low 8 x y ∙ rw (own_low, low) (bit_or-zero x) in
    omega (arith, high, rest, low)

bit_or-above_16 : (x y : ℕ) → x < 2 ^ 16 → y % 2 ^ 16 ≡ 0 → bit_or x y ≡ x + y
bit_or-above_16 x y lt low =
    let none_high : x / 2 ^ 16 ≡ 0 = omega (arith, lt) in
    let own_low : x % 2 ^ 16 ≡ x = omega (arith, lt) in
    let high : bit_or x y / 2 ^ 16 ≡ y / 2 ^ 16 =
      bit_or-div 16 x y ∙ rw none_high (zero-bit_or (y / 2 ^ 16)) in
    let rest : bit_or x y % 2 ^ 16 ≡ x = bit_or-low 16 x y ∙ rw (own_low, low) (bit_or-zero x) in
    omega (arith, high, rest, low)

bit_or-above_24 : (x y : ℕ) → x < 2 ^ 24 → y % 2 ^ 24 ≡ 0 → bit_or x y ≡ x + y
bit_or-above_24 x y lt low =
    let none_high : x / 2 ^ 24 ≡ 0 = omega (arith, lt) in
    let own_low : x % 2 ^ 24 ≡ x = omega (arith, lt) in
    let high : bit_or x y / 2 ^ 24 ≡ y / 2 ^ 24 =
      bit_or-div 24 x y ∙ rw none_high (zero-bit_or (y / 2 ^ 24)) in
    let rest : bit_or x y % 2 ^ 24 ≡ x = bit_or-low 24 x y ∙ rw (own_low, low) (bit_or-zero x) in
    omega (arith, high, rest, low)

four_times_lem : (c : ℕ) → c < 256 → four_times c ≡ c + c * 2 ^ 8 + c * 2 ^ 16 + c * 2 ^ 24
unfolding four_times
four_times_lem c lt =
    let top : c * 2 ^ 24 % 2 ^ 32 ≡ c * 2 ^ 24 = omega (arith, lt) in
    rw (
      top,
      bit_or-above_8 c (c * 2 ^ 8) (omega (arith, lt)) (omega arith),
      bit_or-above_16 (c + c * 2 ^ 8) (c * 2 ^ 16) (omega (arith, lt)) (omega arith),
      bit_or-above_24 (c + c * 2 ^ 8 + c * 2 ^ 16) (c * 2 ^ 24) (omega (arith, lt)) (omega arith),
    )

byte_of-four_times : (c t : ℕ) → c < 256 → t < 4 → byte_of (four_times c) t ≡ c
unfolding byte_of
byte_of-four_times c zero lt small = omega (arith, four_times_lem c lt, lt)
byte_of-four_times c (suc zero) lt small = omega (arith, four_times_lem c lt, lt)
byte_of-four_times c (suc (suc zero)) lt small = omega (arith, four_times_lem c lt, lt)
byte_of-four_times c (suc (suc (suc zero))) lt small = omega (arith, four_times_lem c lt, lt)
byte_of-four_times c (suc (suc (suc (suc t)))) lt small = absurd (omega (arith, small))

fill_word-Filled :
    (byte max : ℕ) (f : Fill) (n : ℕ)
    → byte < 256
    → Room max f n
    → leb (after f.dst 4) max ≡ true
    → (4 ≤ n) × Filled byte f 4 (fill_word (four_times byte) f)
unfolding fill_word after store_word
fill_word-Filled byte max f n small r test =
    let enough : 4 ≤ n = ground (arith, r.ends, r.below, test) in
    (
      enough,
      record {
        memory = λ a. elim (Bool-cases (leb f.dst a && ltb a (f.dst + 4))) [
          | inl inside ↦
              rw inside (byte_of-four_times byte (a - f.dst) small (ground (arith, inside)))
          | inr outside ↦ rw outside
        ];
        dst = omega (arith, r.ends, r.below, enough);
      },
    )

start-Room :
    (m : Memory) (dst n : ℕ)
    → dst + n + 4 < 2 ^ 32
    → Room (after dst n) (record { memory = m; dst = dst }) n
unfolding after
start-Room m dst n room = record { ends = omega (arith, room); below = omega (arith, room) }

-- The last loop fills all that is left.
fill_rest-Filled :
    (byte max rounds n : ℕ) (f : Fill)
    → n ≤ rounds
    → Room max f n
    → Filled byte f n (while_do rounds (λ f. ltb f.dst max) (fill_byte byte) f)
fill_rest-Filled byte max rounds n f le r =
    let t =
      while_do-Ended byte max 1 (omega arith) (λ f. ltb f.dst max) (fill_byte byte)
        (λ f n r more. fill_byte-Filled byte max f n r (ground (arith, more))) rounds n f le r in
    let all : t.moved ≡ n = ground (arith, t.within, t.ended, t.filled.dst, r.ends) in
    subst (λ q. Filled byte f q (while_do rounds (λ f. ltb f.dst max) (fill_byte byte) f)) all
      t.filled

-- Where the target does not reach the last four bytes of the addresses, `memset` makes each of
-- its bytes the low byte of `c`, and changes no other.
pub memset-filled :
    (m : Memory) (dst c n a : ℕ)
    → dst + n + 4 < 2 ^ 32
    → memset m dst c n a ≡ (if leb dst a && ltb a (dst + n) then c % 256 else m a)
unfolding memset
memset-filled m dst c n a room =
    let max = after dst n in
    let byte = c % 256 in
    let start : Fill = record { memory = m; dst = dst } in
    let r = start-Room m dst n room in
    let h =
      while_do-Ended byte max 1 (omega arith) (λ f. not (f.dst % 4 == 0) && ltb f.dst max)
        (fill_byte byte) (λ f n r more. fill_byte-Filled byte max f n r (ground (arith, more))) n n
        start (omega arith) r in
    let r' = Room-later r h.within h.filled in
    let w =
      while_do-Ended byte max 4 (omega arith) (λ f. leb (after f.dst 4) max)
        (fill_word (four_times byte))
        (λ f n r more. fill_word-Filled byte max f n (omega arith) r more) n (n - h.moved) _
        (omega arith) r' in
    let r'' = Room-later r' w.within w.filled in
    let b = fill_rest-Filled byte max n (n - h.moved - w.moved) _ (omega arith) r'' in
    let all = Filled-trans h.filled (Filled-trans w.filled b) in
    let count : h.moved + (w.moved + (n - h.moved - w.moved)) ≡ n =
      omega (arith, h.within, w.within) in
    all.memory a ∙ rw count refl
