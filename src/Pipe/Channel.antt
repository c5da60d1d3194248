-- ===== src/Pipe/Channel.antt =====
-- A writer and a reader at the two ends of a pipe (user/lib/pipe.c) pass all bytes on, and what a
-- round of `pipe_read` answers.
use spring_os.Base.{
  ℕ, zero, suc, ◌+◌, ◌*◌, ◌<◌, ◌≤◌, ◌≡◌, refl, ap, sym, ◌∙◌, ◌⊎◌, inl, inr, true, false, some, List,
  [], ◌∷◌, ◌++◌, ◌||◌, leb, length, arith, Bool-cases, length-append,
}
use spring_os.Pipe.{
  Pipe, pipe_is_empty, read_byte, store_byte, write_position, drain, Round, pipe_read,
}
use spring_os.Pipe.Stores.{contents-store, contents-write_position}
use spring_os.Pipe.Fifo.{
  contents, IsValid, contents-read, length-contents, length-empty, Drained, drain-Drained,
}
use spring_os.Pipe.Ends.{
  Writer, w_start, w_tested, w_stored, Reader, r_start, r_tested, r_taken, Channel, Step, test_room,
  store, sent, test_bytes, take, got, Steps, stop, step, message, work, writer_made, reader_made,
  WriterKnows, ReaderKnows, IsSound, append-middle, not_empty, test_bytes-keeps, Step-IsSound,
}

Step-message : {c d : Channel} → Step c d → IsSound c → message d ≡ message c
unfolding message
Step-message (test_room space) v = refl
Step-message (store {p} {byte} {bytes} {received} {r}) v =
    ap (λ l. received ++ (l ++ byte ∷ bytes)) (contents-store byte p v.valid.behind v.writes)
Step-message (sent {p} {byte} {bytes} {received} {r}) v =
    let done = contents-write_position (length bytes) byte p v.valid v.writes.0 v.writes.1 in
    ap (λ l. received ++ l)
      (ap (λ l. l ++ bytes) done.0 ∙ sym (append-middle (contents p) byte bytes))
Step-message (test_bytes more) v = refl
Step-message take v = refl
Step-message (got {p} {byte} {unsent} {received} {w}) v =
    let done = contents-read (length unsent) p v.valid (not_empty p v.reads.0) in
    sym (append-middle received byte (contents (read_byte p) ++ unsent))
    ∙ ap (λ l. received ++ (l ++ unsent))
        (ap (λ b. b ∷ contents (read_byte p)) v.reads.1 ∙ sym done.0)

-- What is made of a round belongs to a byte that is there.
writer-part :
    (w : Writer) (p : Pipe) (unsent : List ℕ)
    → WriterKnows w p unsent
    → writer_made w ≤ length unsent * 6
writer-part w_start p unsent k = omega arith
writer-part w_tested p [] k = absurd k
writer-part w_tested p (b ∷ bs) k = omega arith
writer-part w_stored p [] k = absurd k
writer-part w_stored p (b ∷ bs) k = omega arith

reader-part : (r : Reader) (p : Pipe) → ReaderKnows r p → reader_made r ≤ length (contents p) * 3
reader-part r_start p k = omega arith
reader-part r_tested p k = omega (arith, length-contents p, k)
reader-part (r_taken b) p k = omega (arith, length-contents p, k.0)

Step-work : {c d : Channel} → Step c d → IsSound c → work c ≡ suc (work d)
unfolding work
Step-work (test_room {p} {byte} {bytes} {received} {r} space) v =
    omega (arith, reader-part r p v.reads)
Step-work (store {p} {byte} {bytes} {received} {r}) v =
    let same : length (contents (store_byte byte p)) ≡ length (contents p) =
      ap (λ l. length l) (contents-store byte p v.valid.behind v.writes) in
    omega (arith, reader-part r p v.reads)
Step-work (sent {p} {byte} {bytes} {received} {r}) v =
    let done = contents-write_position (length bytes) byte p v.valid v.writes.0 v.writes.1 in
    let count : length (contents (write_position p)) ≡ length (contents p) + 1 =
      ap (λ l. length l) done.0 ∙ length-append (contents p) (byte ∷ []) in
    omega (arith, reader-part r p v.reads)
Step-work (test_bytes {p} {unsent} {received} {w} more) v =
    let some_byte : 0 < length (contents p) =
      let after = test_bytes-keeps more v in omega (arith, length-contents p, after.reads) in
    omega (arith, writer-part w p unsent v.writes)
Step-work (take {p} {unsent} {received} {w}) v =
    omega (arith, writer-part w p unsent v.writes, length-contents p, v.reads)
Step-work (got {p} {byte} {unsent} {received} {w}) v =
    let done = contents-read (length unsent) p v.valid (not_empty p v.reads.0) in
    let count : length (contents p) ≡ suc (length (contents (read_byte p))) =
      ap (λ l. length l) done.0 in
    omega (arith, writer-part w p unsent v.writes)

pub Steps-keep :
    {n : ℕ} {c d : Channel}
    → Steps n c d
    → IsSound c
    → (message d ≡ message c) × (work c ≡ n + work d) × IsSound d
Steps-keep stop v = (refl, omega arith, v)
Steps-keep (step s ss) v =
    let many = Steps-keep ss (Step-IsSound s v) in
    (many.0 ∙ Step-message s v, omega (arith, Step-work s v, many.1), many.2)

nil_of_length : (xs : List ℕ) → length xs ≡ 0 → xs ≡ []
nil_of_length [] e = refl
nil_of_length (x ∷ xs) e = absurd (omega arith)

-- All is received, or a step can be made.
abbrev GoesOn : Channel → Type 0
GoesOn c = (c.received ≡ message c) ⊎ ((d : Channel) × Step c d)

-- A read that is answered, or waits for the next round.
pub data Answer (n : ℕ) (round : Round) (rounds : List Round) (p : Pipe) : Type 0 where
  waits :
      contents p ≡ []
      → round.closed ≡ false
      → pipe_read n (round ∷ rounds) p ≡ pipe_read n rounds (round.others p)
      → Answer n round rounds p
  answers :
      {room : ℕ} {bytes : List ℕ} {q : Pipe}
      → pipe_read n (round ∷ rounds) p ≡ some (bytes, q)
      → Drained room n p bytes q
      → (bytes ≡ [] → round.closed ≡ true)
      → Answer n round rounds p

drain-empty : (n : ℕ) (p : Pipe) → pipe_is_empty p ≡ true → drain n p ≡ ([], p)
unfolding drain
drain-empty zero p e = refl
drain-empty (suc n) p e = rw e refl

answer_now :
    (n : ℕ) (round : Round) (rounds : List Round) (p : Pipe)
    → (leb 1 (length (drain n p).0) || round.closed) ≡ true
    → pipe_read n (round ∷ rounds) p ≡ some (drain n p)
unfolding pipe_read
answer_now n round rounds p e = rw e refl

wait_on :
    (n : ℕ) (round : Round) (rounds : List Round) (p : Pipe)
    → drain n p ≡ ([], p)
    → round.closed ≡ false
    → pipe_read n (round ∷ rounds) p ≡ pipe_read n rounds (round.others p)
unfolding pipe_read
wait_on n round rounds p nothing open_end = rw (nothing, open_end) refl

-- For a pipe that is in order and a read of at least one byte, a round of `pipe_read` yields if
-- the pipe is empty and not closed; otherwise it returns the oldest bytes, as many as wanted or
-- there are, and none only if the pipe is closed.
pub pipe_read-Answer :
    (room n : ℕ) (round : Round) (rounds : List Round) (p : Pipe)
    → IsValid room p
    → 0 < n
    → Answer n round rounds p
pipe_read-Answer room n round rounds p v pos =
    let got = drain-Drained room n p v in
    elim (Bool-cases (pipe_is_empty p)) [
      | inl empty ↦
          let nothing : drain n p ≡ ([], p) = drain-empty n p empty in
          elim (Bool-cases round.closed) [
            | inl shut ↦
                let now : (leb 1 (length (drain n p).0) || round.closed) ≡ true =
                  rw (nothing, shut) refl in
                answers (answer_now n round rounds p now) got (λ _. shut)
            | inr open_end ↦
                waits (nil_of_length (contents p) (length-empty room p v empty)) open_end
                  (wait_on n round rounds p nothing open_end)
          ]
      | inr more ↦
          let one : length (contents p) ≡ suc (length (contents (read_byte p))) =
            ap (λ l. length l) (contents-read room p v more).0 in
          let now : (leb 1 (length (drain n p).0) || round.closed) ≡ true =
            ground (arith, got.taken) in
          answers (answer_now n round rounds p now) got
            (λ e. absurd (let z : length (drain n p).0 ≡ 0 = rw e refl in omega (arith, got.taken)))
    ]
