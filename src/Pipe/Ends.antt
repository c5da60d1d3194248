-- ===== src/Pipe/Ends.antt =====
-- A writer and a reader at the two ends of a pipe (user/lib/pipe.c), interleaved in any order. One
-- round of the inner loop of `pipe_write` is three steps: the test, the store of the byte, the move
-- of the position; a round of `pipe_read` likewise. The statement that moves a byte
-- (`p_buf[p_wpos++ % BY2PIPE] = …`) leaves the order of the last two open in C; here the position
-- moves last.
use spring_os.Base.{
  ℕ, suc, ◌+◌, ◌-◌, ◌*◌, ◌%◌, ◌^◌, ◌<◌, ◌≡◌, refl, ap, sym, ◌∙◌, false, List, [], ◌∷◌, ◌++◌, length,
  arith,
}
use spring_os.Pipe.{
  Pipe, pipe_is_empty, pipe_is_full, next_byte, read_byte, store_byte, write_position,
}
use spring_os.Pipe.Stores.{contents-write_position, next_byte-store}
use spring_os.Pipe.Fifo.{contents, IsValid, contents-read}

-- Where the writer and the reader are in the round for one byte.
pub data Writer : Type 0 where
  w_start w_tested w_stored : Writer

pub data Reader : Type 0 where
  r_start r_tested : Reader
  r_taken : ℕ → Reader

pub record Channel : Type 0 where
  pub pipe : Pipe
  pub unsent : List ℕ
  pub received : List ℕ
  pub writer : Writer
  pub reader : Reader

abbrev pub channel : Pipe → List ℕ → List ℕ → Writer → Reader → Channel
channel p unsent received w r = record {
  pipe = p;
  unsent = unsent;
  received = received;
  writer = w;
  reader = r;
}

pub data Step : Channel → Channel → Type 0 where
  test_room :
      {p : Pipe} {byte : ℕ} {bytes received : List ℕ} {r : Reader}
      → pipe_is_full p ≡ false
      → Step
          (channel p (byte ∷ bytes) received w_start r)
          (channel p (byte ∷ bytes) received w_tested r)
  store :
      {p : Pipe} {byte : ℕ} {bytes received : List ℕ} {r : Reader}
      → Step
          (channel p (byte ∷ bytes) received w_tested r)
          (channel (store_byte byte p) (byte ∷ bytes) received w_stored r)
  sent :
      {p : Pipe} {byte : ℕ} {bytes received : List ℕ} {r : Reader}
      → Step
          (channel p (byte ∷ bytes) received w_stored r)
          (channel (write_position p) bytes received w_start r)
  test_bytes :
      {p : Pipe} {unsent received : List ℕ} {w : Writer}
      → pipe_is_empty p ≡ false
      → Step (channel p unsent received w r_start) (channel p unsent received w r_tested)
  take :
      {p : Pipe} {unsent received : List ℕ} {w : Writer}
      → Step
          (channel p unsent received w r_tested)
          (channel p unsent received w (r_taken (next_byte p)))
  got :
      {p : Pipe} {byte : ℕ} {unsent received : List ℕ} {w : Writer}
      → Step
          (channel p unsent received w (r_taken byte))
          (channel (read_byte p) unsent (received ++ byte ∷ []) w r_start)

-- So many steps one after the other.
pub data Steps : ℕ → Channel → Channel → Type 0 where
  stop : {c : Channel} → Steps 0 c c
  step : {n : ℕ} {b c d : Channel} → Step b c → Steps n c d → Steps (suc n) b d

-- Everything that was or will be sent, in order.
unfoldable pub message : Channel → List ℕ
message c = c.received ++ (contents c.pipe ++ c.unsent)

-- The steps that are left until all is received: six for a byte that is not sent, three for one in
-- the pipe, less those that the writer and the reader have made for theirs.
abbrev pub writer_made : Writer → ℕ
writer_made w_start = 0
writer_made w_tested = 1
writer_made w_stored = 2

abbrev pub reader_made : Reader → ℕ
reader_made r_start = 0
reader_made r_tested = 1
reader_made (r_taken byte) = 2

unfoldable pub work : Channel → ℕ
work c =
    length c.unsent * 6
    + length (contents c.pipe) * 3
    - (writer_made c.writer + reader_made c.reader)

-- What the writer and the reader know of the pipe from the steps that they have made.
abbrev pub WriterKnows : Writer → Pipe → List ℕ → Type 0
WriterKnows w_start p unsent = Unit {0}
WriterKnows w_tested p [] = ⊥
WriterKnows w_tested p (byte ∷ bytes) = p.p_wpos < p.p_rpos + 32
WriterKnows w_stored p [] = ⊥
WriterKnows w_stored p (byte ∷ bytes) =
    (p.p_wpos < p.p_rpos + 32) × (p.p_buf (p.p_wpos % 32) ≡ byte)

abbrev pub ReaderKnows : Reader → Pipe → Type 0
ReaderKnows r_start p = Unit {0}
ReaderKnows r_tested p = p.p_rpos < p.p_wpos
ReaderKnows (r_taken byte) p = (p.p_rpos < p.p_wpos) × (byte ≡ next_byte p)

pub record IsSound (c : Channel) : Type 0 where
  pub valid : IsValid (length c.unsent) c.pipe
  pub writes : WriterKnows c.writer c.pipe c.unsent
  pub reads : ReaderKnows c.reader c.pipe

pub append-middle : (xs : List ℕ) (b : ℕ) (ys : List ℕ) → xs ++ b ∷ ys ≡ (xs ++ b ∷ []) ++ ys
append-middle [] b ys = refl
append-middle (x ∷ xs) b ys = ap (λ l. x ∷ l) (append-middle xs b ys)

store-reads :
    (p : Pipe) (byte : ℕ) (r : Reader)
    → p.p_wpos < p.p_rpos + 32
    → ReaderKnows r p
    → ReaderKnows r (store_byte byte p)
unfolding store_byte
store-reads p byte r_start used k = k
store-reads p byte r_tested used k = k
store-reads p byte (r_taken b) used k = (k.0, k.1 ∙ sym (next_byte-store byte p k.0 used))

sent-reads :
    (p : Pipe) (r : Reader)
    → p.p_wpos + 1 < 2 ^ 32
    → ReaderKnows r p
    → ReaderKnows r (write_position p)
unfolding write_position next_byte
sent-reads p r_start small k = k
sent-reads p r_tested small k = omega (arith, k)
sent-reads p (r_taken b) small k = (omega (arith, k.0), k.1)

pub not_empty : (p : Pipe) → p.p_rpos < p.p_wpos → pipe_is_empty p ≡ false
unfolding pipe_is_empty
not_empty p lt = ground (arith, lt)

got-writes :
    (p : Pipe) (w : Writer) (unsent : List ℕ)
    → p.p_rpos + 1 < 2 ^ 32
    → WriterKnows w p unsent
    → WriterKnows w (read_byte p) unsent
unfolding read_byte
got-writes p w_start unsent small k = k
got-writes p w_tested [] small k = k
got-writes p w_tested (b ∷ bs) small k = omega (arith, k)
got-writes p w_stored [] small k = k
got-writes p w_stored (b ∷ bs) small k = (omega (arith, k.0), k.1)

module _ {p : Pipe} {byte : ℕ} {bytes received : List ℕ} {r : Reader} where
  test_room-keeps :
      pipe_is_full p ≡ false
      → IsSound (channel p (byte ∷ bytes) received w_start r)
      → IsSound (channel p (byte ∷ bytes) received w_tested r)
  unfolding pipe_is_full
  test_room-keeps space v = record {
    valid = v.valid;
    writes = let a = v.valid in ground (arith, a.behind, a.counts);
    reads = v.reads;
  }

  store-keeps :
      IsSound (channel p (byte ∷ bytes) received w_tested r)
      → IsSound (channel (store_byte byte p) (byte ∷ bytes) received w_stored r)
  unfolding store_byte
  store-keeps v = record {
    valid = record { behind = v.valid.behind; fits = v.valid.fits; counts = v.valid.counts };
    writes = (v.writes, ground arith);
    reads = store-reads p byte r v.writes v.reads;
  }

  sent-keeps :
      (v : IsSound (channel p (byte ∷ bytes) received w_stored r))
      → IsSound (channel (write_position p) bytes received w_start r)
  sent-keeps v = record {
    valid = (contents-write_position (length bytes) byte p v.valid v.writes.0 v.writes.1).1;
    writes = tt;
    reads = let a = v.valid.counts in sent-reads p r (omega (arith, a)) v.reads;
  }

module _ {p : Pipe} {unsent received : List ℕ} {w : Writer} where
  pub test_bytes-keeps :
      pipe_is_empty p ≡ false
      → IsSound (channel p unsent received w r_start)
      → IsSound (channel p unsent received w r_tested)
  unfolding pipe_is_empty
  test_bytes-keeps more v = record { valid = v.valid; writes = v.writes; reads = ground arith }

  got-keeps :
      {byte : ℕ}
      → IsSound (channel p unsent received w (r_taken byte))
      → IsSound (channel (read_byte p) unsent (received ++ byte ∷ []) w r_start)
  got-keeps v = record {
    valid = (contents-read (length unsent) p v.valid (not_empty p v.reads.0)).1;
    writes = let a = v.valid.counts in got-writes p w unsent (omega (arith, a, v.reads.0)) v.writes;
    reads = tt;
  }

pub Step-IsSound : {c d : Channel} → Step c d → IsSound c → IsSound d
Step-IsSound (test_room space) v = test_room-keeps space v
Step-IsSound store v = store-keeps v
Step-IsSound sent v = sent-keeps v
Step-IsSound (test_bytes more) v = test_bytes-keeps more v
Step-IsSound take v = record { valid = v.valid; writes = v.writes; reads = (v.reads, refl) }
Step-IsSound got v = got-keeps v
