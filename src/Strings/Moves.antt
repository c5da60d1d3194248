-- ===== src/Strings/Moves.antt =====
-- `memcpy` of lib/string.c, with its words, does what copying byte after byte does.
use spring_os.Base.{
  ℕ, zero, suc, ◌+◌, ◌-◌, ◌%◌, ◌≤◌, ◌<◌, ◌≡◌, ◌⊎◌, refl, sym, ◌∙◌, fun_ext, inl, inr, true, false,
  ◌&&◌, ltb, leb, ◌==◌, if◌then◌else◌, update, arith, Bool-cases,
}
use spring_os.Base.Bits.{byte_of-word_of}
use spring_os.Strings.{Memory, load_word, store_word, Copy}

-- Byte after byte, from the first on.
unfoldable pub forward : ℕ → Memory → ℕ → ℕ → Memory
forward zero m dst src = m
forward (suc n) m dst src = forward n (update m dst (m src)) (dst + 1) (src + 1)

pub forward_add :
    (a b : ℕ) (m : Memory) (dst src : ℕ)
    → forward (a + b) m dst src ≡ forward b (forward a m dst src) (dst + a) (src + a)
unfolding forward
forward_add zero b m dst src = ground arith
forward_add (suc a) b m dst src =
    let count : suc a + b ≡ suc (a + b) = omega arith in
    let to : dst + 1 + a ≡ dst + suc a = omega arith in
    let from : src + 1 + a ≡ src + suc a = omega arith in
    rw (count, sym to, sym from) (forward_add a b (update m dst (m src)) (dst + 1) (src + 1))

-- The state after `n` bytes.
abbrev copied : Copy → ℕ → Copy
copied c n = record { memory = forward n c.memory c.dst c.src; dst = c.dst + n; src = c.src + n }

-- Copying is safe: the target lies before the source, or behind its end.
abbrev pub IsApart : ℕ → ℕ → ℕ → Type 0
IsApart dst src n = (dst ≤ src) ⊎ (src + n ≤ dst)

-- Every byte of the target is the byte of the source as it was, and no other byte changes.
pub forward-moved :
    (n : ℕ) (m : Memory) (dst src a : ℕ)
    → IsApart dst src n
    → forward n m dst src a ≡ (if leb dst a && ltb a (dst + n) then m (src + (a - dst)) else m a)
unfolding forward
forward-moved zero m dst src a apart = ground arith
forward-moved (suc n) m dst src a apart =
    let apart' : IsApart (dst + 1) (src + 1) n = elim apart [
      | inl h ↦ inl (omega (arith, h))
      | inr h ↦ inr (omega (arith, h))
    ] in
    forward-moved n (update m dst (m src)) (dst + 1) (src + 1) a apart'
    ∙ elim (Bool-cases (leb dst a && ltb a (dst + suc n))) [
      | inr out ↦ rw out (ground (arith, out))
      | inl inside ↦ elim (Bool-cases (a == dst)) [
        | inl first ↦
            let place : src + (a - dst) ≡ src = ground (arith, first) in
            rw (inside, place) (ground (arith, first))
        | inr later ↦
            let place : src + 1 + (a - (dst + 1)) ≡ src + (a - dst) =
              ground (arith, inside, later) in
            let within : (leb (dst + 1) a && ltb a (dst + 1 + n)) ≡ true =
              ground (arith, inside, later) in
            let fresh : (src + (a - dst) == dst) ≡ false = ground (arith, apart, inside, later) in
            rw (inside, within, place, fresh)
      ]
    ]

-- A word is four bytes, if the distance of the addresses is a multiple of four.
pub store_word-forward :
    (m : Memory) (dst src : ℕ)
    → ((a : ℕ) → m a < 256)
    → src % 4 ≡ dst % 4
    → store_word m dst (load_word m src) ≡ forward 4 m dst src
unfolding store_word load_word
store_word-forward m dst src small same = fun_ext (λ a.
    let apart : IsApart dst src 4 = elim (Bool-cases (leb dst src)) [
      | inl h ↦ inl (ground (arith, h))
      | inr h ↦ inr (ground (arith, h, same))
    ] in
    sym (
      forward-moved 4 m dst src a apart ∙ elim (Bool-cases (leb dst a && ltb a (dst + 4))) [
        | inl inside ↦ rw inside (
            sym (
              byte_of-word_of (λ t. m (src + t)) (a - dst) (λ t. small (src + t))
                (ground (arith, inside))))
        | inr out ↦ rw out refl
      ]))
