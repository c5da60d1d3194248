-- ===== src/Strings/Copying.antt =====
-- The three loops of `memcpy` (lib/string.c) together copy byte after byte.
use spring_os.Base.{
  ℕ, zero, suc, ◌+◌, ◌-◌, ◌%◌, ◌^◌, ◌≤◌, ◌<◌, ◌≡◌, refl, sym, ap, ◌∙◌, subst, inl, inr, Bool, true,
  false, not, ◌&&◌, ltb, leb, ◌==◌, if◌then◌else◌, update, arith, Bool-cases,
}
use spring_os.Strings.{
  Memory, after, Copy, copy_byte, copy_word, while_do, copy_bytes, copy_head, copy_words, memcpy,
}
use spring_os.Strings.Moves.{forward, forward_add, forward-moved, store_word-forward, IsApart}

-- From `c`, `n` more bytes are copied.
record Reached (c : Copy) (n : ℕ) (d : Copy) : Type 0 where
  memory : d.memory ≡ forward n c.memory c.dst c.src
  dst : d.dst ≡ c.dst + n
  src : d.src ≡ c.src + n

Reached-trans : {c d e : Copy} {a b : ℕ} → Reached c a d → Reached d b e → Reached c (a + b) e
Reached-trans {c} {d} {e} {a} {b} r s = record {
  memory = s.memory ∙ rw (r.memory, r.dst, r.src) (sym (forward_add a b c.memory c.dst c.src));
  dst = omega (arith, r.dst, s.dst);
  src = omega (arith, r.src, s.src);
}

Reached-zero : (c : Copy) → Reached c 0 c
unfolding forward
Reached-zero c = record { memory = refl; dst = omega arith; src = omega arith }

forward_small :
    (n : ℕ) (m : Memory) (dst src : ℕ)
    → ((a : ℕ) → m a < 256)
    → (a : ℕ) → forward n m dst src a < 256
unfolding forward
forward_small zero m dst src small a = small a
forward_small (suc n) m dst src small a =
    forward_small n (update m dst (m src)) (dst + 1) (src + 1)
      (λ b. ground (arith, small b, small src)) a

-- `n` bytes are left, up to `max`; no address wraps around, and memory holds bytes.
record Going (max : ℕ) (c : Copy) (n : ℕ) : Type 0 where
  dst : c.dst + n + 4 < 2 ^ 32
  src : c.src + n < 2 ^ 32
  ends : c.dst + n ≡ max
  small : (a : ℕ) → c.memory a < 256

Going-later :
    {max : ℕ} {c d : Copy} {n a : ℕ} → Going max c n → a ≤ n → Reached c a d → Going max d (n - a)
Going-later {c = c} {a = a} g le r = record {
  dst = omega (arith, g.dst, le, r.dst);
  src = omega (arith, g.src, le, r.src);
  ends = omega (arith, g.ends, le, r.dst);
  small = λ b. rw r.memory (forward_small a c.memory c.dst c.src g.small b);
}

-- A loop has ended, after some bytes.
record Ran (test : Copy → Bool) (c : Copy) (n : ℕ) (d : Copy) : Type 0 where
  moved : ℕ
  within : moved ≤ n
  reached : Reached c moved d
  ended : test d ≡ false

-- A loop whose rounds move `w` bytes, but at least one, ends.
module _ (max w : ℕ) (pos : 0 < w) (test : Copy → Bool) (step : Copy → Copy) (P : Copy → Type 0)
    (keep : (c d : Copy) (a : ℕ) → Reached c a d → P c → P d)
    (move : (c : Copy) (n : ℕ)
      → Going max c n
      → P c
      → test c ≡ true
      → (w ≤ n) × Reached c w (step c)) where
  while_do-Ran :
      (rounds n : ℕ) (c : Copy)
      → n ≤ rounds
      → Going max c n
      → P c
      → Ran test c n (while_do rounds test step c)
  unfolding while_do
  while_do-Ran zero n c le g p = record {
    moved = 0;
    within = omega arith;
    reached = Reached-zero c;
    ended = elim (Bool-cases (test c)) [
      | inl more ↦ absurd (omega (arith, le, pos, (move c n g p more).0))
      | inr done ↦ done
    ];
  }
  while_do-Ran (suc rounds) n c le g p = elim (Bool-cases (test c)) [
    | inr done ↦
        rw done (record { moved = 0; within = omega arith; reached = Reached-zero c; ended = done })
    | inl more ↦
        let (enough, r) = move c n g p more in
        let t =
          while_do-Ran rounds (n - w) (step c) (omega (arith, le, pos, enough))
            (Going-later g enough r) (keep c (step c) w r p) in
        rw more (record {
          moved = w + t.moved;
          within = omega (arith, t.within, enough);
          reached = Reached-trans r t.reached;
          ended = t.ended;
        })
  ]

copy_byte-Reached :
    (max : ℕ) (c : Copy) (n : ℕ) → Going max c n → c.dst < max → (1 ≤ n) × Reached c 1 (copy_byte c)
unfolding copy_byte after forward
copy_byte-Reached max c n g lt = (
  omega (arith, g.ends, lt),
  record {
    memory = refl;
    dst = omega (arith, g.dst, g.ends, lt);
    src = omega (arith, g.src, g.ends, lt);
  },
)

copy_word-Reached :
    (max : ℕ) (c : Copy) (n : ℕ)
    → Going max c n
    → c.src % 4 ≡ c.dst % 4
    → leb (after c.dst 4) max ≡ true
    → (4 ≤ n) × Reached c 4 (copy_word c)
unfolding copy_word after
copy_word-Reached max c n g parity test =
    let enough : 4 ≤ n = ground (arith, g.ends, g.dst, test) in
    (
      enough,
      record {
        memory = store_word-forward c.memory c.dst c.src g.small parity;
        dst = omega (arith, g.dst, enough);
        src = omega (arith, g.src, enough);
      },
    )

module _ (rounds n : ℕ) (c : Copy) (le : n ≤ rounds) {max : ℕ} (g : Going max c n) where
  copy_bytes-Ran : Reached c n (copy_bytes rounds max c)
  unfolding copy_bytes
  copy_bytes-Ran =
      let t =
        while_do-Ran max 1 (omega arith) (λ c. ltb c.dst max) copy_byte (λ c. Unit {0})
          (λ c d a r p. tt) (λ c n g p test. copy_byte-Reached max c n g (ground (arith, test)))
          rounds n c le g tt in
      let all : t.moved ≡ n = ground (arith, t.within, t.ended, t.reached.dst, g.ends) in
      subst (λ q. Reached c q (copy_bytes rounds max c)) all t.reached

  copy_head-Ran : Ran (λ c. not (c.dst % 4 == 0) && ltb c.dst max) c n (copy_head rounds max c)
  unfolding copy_head
  copy_head-Ran =
      while_do-Ran max 1 (omega arith) _ copy_byte (λ c. Unit {0}) (λ c d a r p. tt)
        (λ c n g p test. copy_byte-Reached max c n g (ground (arith, test))) rounds n c le g tt

  copy_words-Ran :
      c.src % 4 ≡ c.dst % 4 → Ran (λ c. leb (after c.dst 4) max) c n (copy_words rounds max c)
  unfolding copy_words
  copy_words-Ran parity =
      while_do-Ran max 4 (omega arith) _ copy_word (λ c. c.src % 4 ≡ c.dst % 4)
        (λ c d a r p. omega (arith, r.dst, r.src, p))
        (λ c n g p test. copy_word-Reached max c n g p test) rounds n c le g parity

start-Going :
    (m : Memory) (dst src n : ℕ)
    → ((a : ℕ) → m a < 256)
    → dst + n + 4 < 2 ^ 32
    → src + n < 2 ^ 32
    → Going (after dst n) (record { memory = m; dst = dst; src = src }) n
unfolding after
start-Going m dst src n small room room' = record {
  dst = room;
  src = room';
  ends = omega (arith, room);
  small = small;
}

memcpy-bytes :
    (m : Memory) (dst src n : ℕ)
    → Going (after dst n) (record { memory = m; dst = dst; src = src }) n
    → memcpy m dst src n ≡ forward n m dst src
unfolding memcpy
memcpy-bytes m dst src n g =
    let max = after dst n in
    let start : Copy = record { memory = m; dst = dst; src = src } in
    elim (Bool-cases (src % 4 == dst % 4)) [
      | inr unlike ↦ rw unlike (copy_bytes-Ran n n start (omega arith) g).memory
      | inl like ↦
          let parity : src % 4 ≡ dst % 4 = ground (arith, like) in
          let h = copy_head-Ran n n start (omega arith) g in
          let parity' : (copy_head n max start).src % 4 ≡ (copy_head n max start).dst % 4 =
            omega (arith, parity, h.reached.dst, h.reached.src) in
          let g' = Going-later g h.within h.reached in
          let w = copy_words-Ran n (n - h.moved) (copy_head n max start) (omega arith) g' parity' in
          let g'' = Going-later g' w.within w.reached in
          let b =
            copy_bytes-Ran n (n - h.moved - w.moved) (copy_words n max (copy_head n max start))
              (omega arith) g'' in
          let all = Reached-trans h.reached (Reached-trans w.reached b) in
          let count : h.moved + (w.moved + (n - h.moved - w.moved)) ≡ n =
            omega (arith, h.within, w.within) in
          rw like (
            subst
              (λ q.
                (copy_bytes n max (copy_words n max (copy_head n max start))).memory
                ≡ forward q m dst src)
              count all.memory)
    ]

-- On a memory of bytes, where the source does not reach the end of the 32-bit addresses and the
-- target not its last four bytes, `memcpy`, with its loops over bytes and words, leaves exactly
-- the memory that copying byte after byte from the first on leaves, even if the two overlap; if
-- the target does not start inside the source, behind its start, each byte of the target is the
-- byte of the source as it was, and no other byte changes
pub memcpy-forward :
    (m : Memory) (dst src n : ℕ)
    → ((a : ℕ) → m a < 256)
    → dst + n + 4 < 2 ^ 32
    → src + n < 2 ^ 32
    → (memcpy m dst src n ≡ forward n m dst src)
      × (IsApart dst src n
          → (a : ℕ)
          → memcpy m dst src n a
            ≡ (if leb dst a && ltb a (dst + n) then m (src + (a - dst)) else m a))
memcpy-forward m dst src n small room room' =
    let bytes = memcpy-bytes m dst src n (start-Going m dst src n small room room') in
    (bytes, λ apart a. ap (λ (f : Memory). f a) bytes ∙ forward-moved n m dst src a apart)
