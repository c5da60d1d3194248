-- ===== src/Pipe/Fifo.antt =====
-- The ring buffer of user/lib/pipe.c as a queue: what is in the pipe, and what the loops of
-- `pipe_read` and `pipe_write` do to it.
use spring_os.Base.{
  ℕ, zero, suc, ◌+◌, ◌-◌, ◌%◌, ◌^◌, ◌≤◌, ◌<◌, min, ◌≡◌, refl, inl, inr, true, false, List, [], ◌∷◌,
  ◌++◌, leb, update, length, arith, Bool-cases, length-append, ap, sym, ◌∙◌,
}
use spring_os.Pipe.{
  Pipe, pipe_is_empty, pipe_is_full, next_byte, read_byte, write_byte, drain, fill,
}

-- The `n` bytes of the ring from position `pos` on.
unfoldable pub segment : (ℕ → ℕ) → ℕ → ℕ → List ℕ
segment buf pos zero = []
segment buf pos (suc n) = buf (pos % 32) ∷ segment buf (pos + 1) n

-- The bytes that were written and not read yet.
unfoldable pub contents : Pipe → List ℕ
contents p = segment p.p_buf p.p_rpos (p.p_wpos - p.p_rpos)

-- The reader is behind the writer, by at most the size of the ring, and room for `room` more bytes
-- is left before the counters wrap.
pub record IsValid (room : ℕ) (p : Pipe) : Type 0 where
  pub behind : p.p_rpos ≤ p.p_wpos
  pub fits : p.p_wpos ≤ p.p_rpos + 32
  pub counts : p.p_wpos + room < 2 ^ 32

pub length-segment : (buf : ℕ → ℕ) (pos n : ℕ) → length (segment buf pos n) ≡ n
unfolding segment
length-segment buf pos zero = refl
length-segment buf pos (suc n) = omega (arith, length-segment buf (pos + 1) n)

pub length-contents : (p : Pipe) → length (contents p) ≡ p.p_wpos - p.p_rpos
unfolding contents
length-contents p = length-segment p.p_buf p.p_rpos (p.p_wpos - p.p_rpos)

-- A byte written in the ring behind a segment is at its end.
pub segment-update :
    (buf : ℕ → ℕ) (pos n at byte : ℕ)
    → pos + n ≤ at
    → at < pos + 32
    → segment (update buf (at % 32) byte) pos n ≡ segment buf pos n
unfolding segment
segment-update buf pos zero at byte le lt = refl
segment-update buf pos (suc n) at byte le lt =
    ground (arith, segment-update buf (pos + 1) n at byte)

pub segment-snoc :
    (buf : ℕ → ℕ) (pos n : ℕ)
    → segment buf pos (suc n) ≡ segment buf pos n ++ buf ((pos + n) % 32) ∷ []
unfolding segment
segment-snoc buf pos zero = let e : pos + 0 ≡ pos = omega arith in rw e refl
segment-snoc buf pos (suc n) =
    let e : pos + suc n ≡ (pos + 1) + n = omega arith in rw (segment-snoc buf (pos + 1) n, e) refl

leb→le : (a b : ℕ) → leb a b ≡ true → a ≤ b
leb→le a b e = ground arith

append-snoc : (xs : List ℕ) (b : ℕ) (ys : List ℕ) → xs ++ b ∷ ys ≡ (xs ++ b ∷ []) ++ ys
append-snoc [] b ys = refl
append-snoc (x ∷ xs) b ys = ap (λ l. x ∷ l) (append-snoc xs b ys)

-- Reading takes the oldest byte.
pub contents-read :
    (room : ℕ) (p : Pipe)
    → IsValid room p
    → pipe_is_empty p ≡ false
    → (contents p ≡ next_byte p ∷ contents (read_byte p)) × IsValid room (read_byte p)
unfolding contents segment next_byte read_byte pipe_is_empty
contents-read room p v some_left =
    let lt : p.p_rpos < p.p_wpos = ground arith in
    let pos : (p.p_rpos + 1) % 2 ^ 32 ≡ p.p_rpos + 1 = omega (arith, v.counts) in
    let size : p.p_wpos - p.p_rpos ≡ suc (p.p_wpos - (p.p_rpos + 1)) = omega arith in
    (
      rw (pos, size) refl,
      record {
        behind = rw pos (omega arith);
        fits = rw pos (omega (arith, v.fits));
        counts = v.counts;
      },
    )

-- Writing puts the byte behind the others.
pub contents-write :
    (room byte : ℕ) (p : Pipe)
    → IsValid (suc room) p
    → pipe_is_full p ≡ false
    → (contents (write_byte byte p) ≡ contents p ++ byte ∷ []) × IsValid room (write_byte byte p)
unfolding contents write_byte pipe_is_full
contents-write room byte p v space =
    let used : p.p_wpos < p.p_rpos + 32 = ground (arith, v.behind, v.counts) in
    let pos : (p.p_wpos + 1) % 2 ^ 32 ≡ p.p_wpos + 1 = omega (arith, v.counts) in
    let size : p.p_wpos + 1 - p.p_rpos ≡ suc (p.p_wpos - p.p_rpos) = omega (arith, v.behind) in
    let at : p.p_rpos + (p.p_wpos - p.p_rpos) ≡ p.p_wpos = omega (arith, v.behind) in
    (
      rw
          (
            pos,
            size,
            segment-snoc (update p.p_buf (p.p_wpos % 32) byte) p.p_rpos (p.p_wpos - p.p_rpos),
            segment-update p.p_buf p.p_rpos (p.p_wpos - p.p_rpos) p.p_wpos byte (omega (arith, at))
                used,
            at,
          )
          (ground arith),
      record {
        behind = rw pos (omega (arith, v.behind));
        fits = rw pos (omega arith);
        counts = rw pos (omega (arith, v.counts));
      },
    )

pub length-empty :
    (room : ℕ) (p : Pipe) → IsValid room p → pipe_is_empty p ≡ true → length (contents p) ≡ 0
unfolding pipe_is_empty
length-empty room p v e = omega (arith, length-contents p, leb→le p.p_wpos p.p_rpos e)

pub length-full :
    (room : ℕ) (p : Pipe) → IsValid room p → pipe_is_full p ≡ true → length (contents p) ≡ 32
unfolding pipe_is_full
length-full room p v e = omega (
  arith,
  length-contents p,
  v.fits,
  v.counts,
  v.behind,
  leb→le 32 ((p.p_wpos + (2 ^ 32 - p.p_rpos)) % 2 ^ 32) e,
)

pub length-not_full :
    (room : ℕ) (p : Pipe) → IsValid room p → pipe_is_full p ≡ false → length (contents p) < 32
unfolding pipe_is_full
length-not_full room p v e = ground (arith, length-contents p, v.fits, v.counts, v.behind)

-- What `pipe_read` has taken after its inner loop.
pub record Drained (room n : ℕ) (p : Pipe) (bytes : List ℕ) (q : Pipe) : Type 0 where
  pub oldest : contents p ≡ bytes ++ contents q
  pub taken : length bytes ≡ min n (length (contents p))
  pub valid : IsValid room q

pub drain-Drained :
    (room n : ℕ) (p : Pipe) → IsValid room p → Drained room n p (drain n p).0 (drain n p).1
unfolding drain
drain-Drained room zero p v = record { oldest = refl; taken = omega arith; valid = v }
drain-Drained room (suc n) p v = elim (Bool-cases (pipe_is_empty p)) [
  | inl empty ↦
      let none_left : length (contents p) ≡ 0 = length-empty room p v empty in
      rw empty (record { oldest = refl; taken = omega arith; valid = v })
  | inr more ↦
      let step = contents-read room p v more in
      let rest = drain-Drained room n (read_byte p) step.1 in
      rw more (record {
        oldest = step.0 ∙ ap (λ l. next_byte p ∷ l) rest.oldest;
        taken =
            let count : length (contents p) ≡ suc (length (contents (read_byte p))) =
              ap (λ l. length l) step.0 in
            omega (arith, rest.taken);
        valid = rest.valid;
      })
]

-- What `pipe_write` has done after its inner loop.
pub record Filled (room : ℕ) (p : Pipe) (bytes left : List ℕ) (q : Pipe) : Type 0 where
  pub newest : contents p ++ bytes ≡ contents q ++ left
  pub written : length left ≡ length bytes - (32 - length (contents p))
  pub valid : IsValid (length left + room) q

-- For a pipe that is in order, whose write counter does not wrap for these bytes, the inner loop
-- of `pipe_write` puts the first bytes behind those in the pipe, as many as there is room for,
-- leaves the others, and keeps the pipe in order.
pub fill-Filled :
    (room : ℕ) (bytes : List ℕ) (p : Pipe)
    → IsValid (length bytes + room) p
    → Filled room p bytes (fill bytes p).0 (fill bytes p).1
unfolding fill
fill-Filled room [] p v = record { newest = refl; written = omega arith; valid = v }
fill-Filled room (byte ∷ bytes) p v = elim (Bool-cases (pipe_is_full p)) [
  | inl full ↦
      let size = length-full (suc (length bytes) + room) p v full in
      rw full (record { newest = refl; written = omega arith; valid = v })
  | inr space ↦
      let v' : IsValid (suc (length bytes + room)) p = record {
        behind = v.behind;
        fits = v.fits;
        counts = omega (arith, v.counts);
      } in
      let step = contents-write (length bytes + room) byte p v' space in
      let rest = fill-Filled room bytes (write_byte byte p) step.1 in
      let lt = length-not_full (suc (length bytes + room)) p v' space in
      rw space (record {
        newest =
            append-snoc (contents p) byte bytes ∙ ap (λ l. l ++ bytes) (sym step.0) ∙ rest.newest;
        written =
            let count : length (contents (write_byte byte p)) ≡ length (contents p) + 1 =
              ap (λ l. length l) step.0 ∙ length-append (contents p) (byte ∷ []) in
            omega (arith, rest.written);
        valid = rest.valid;
      })
]
