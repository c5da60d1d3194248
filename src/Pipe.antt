-- ===== src/Pipe.antt =====
-- Pipes: the ring buffer of user/lib/pipe.c, its read and write loops, and the
-- test by which an end learns that the other one is closed. Positions are 32-bit counters.
pub mod Fifo
pub mod Stores
pub mod Ends
pub mod Channel
pub mod Examples
use spring_os.Base.{
  ℕ, zero, suc, ◌+◌, ◌-◌, ◌%◌, ◌^◌, Bool, true, false, ◌||◌, Option, none, some, List, [], ◌∷◌,
  ◌++◌, leb, ◌==◌, if◌then◌else◌, update, length,
}

pub record Pipe : Type 0 where
  p_rpos : ℕ
  p_wpos : ℕ
  p_buf : ℕ → ℕ

abbrev pub by2pipe : ℕ
by2pipe = 32

unfoldable pub pipe_is_empty : Pipe → Bool
pipe_is_empty p = leb p.p_wpos p.p_rpos

unfoldable pub pipe_is_full : Pipe → Bool
pipe_is_full p = leb by2pipe ((p.p_wpos + (2 ^ 32 - p.p_rpos)) % 2 ^ 32)

-- `p->p_buf[p->p_rpos++ % BY2PIPE]`: the byte, and the pipe after it.
unfoldable pub next_byte : Pipe → ℕ
next_byte p = p.p_buf (p.p_rpos % by2pipe)

unfoldable pub read_byte : Pipe → Pipe
read_byte p = record p { p_rpos = (p.p_rpos + 1) % 2 ^ 32 }

-- The two parts of `p->p_buf[p->p_wpos++ % BY2PIPE] = byte`, and the whole.
unfoldable pub store_byte : ℕ → Pipe → Pipe
store_byte byte p = record p { p_buf = update p.p_buf (p.p_wpos % by2pipe) byte }

unfoldable pub write_position : Pipe → Pipe
write_position p = record p { p_wpos = (p.p_wpos + 1) % 2 ^ 32 }

unfoldable pub write_byte : ℕ → Pipe → Pipe
write_byte byte p = record p {
  p_wpos = (p.p_wpos + 1) % 2 ^ 32;
  p_buf = update p.p_buf (p.p_wpos % by2pipe) byte;
}

-- The inner loop of `pipe_read`, with `n` bytes still wanted.
unfoldable pub drain : ℕ → Pipe → List ℕ × Pipe
drain zero p = ([], p)
drain (suc n) p =
    let rest = drain n (read_byte p) in
    if pipe_is_empty p then ([], p) else (next_byte p ∷ rest.0, rest.1)

-- The inner loop of `pipe_write`: the bytes that are left, and the pipe.
unfoldable pub fill : List ℕ → Pipe → List ℕ × Pipe
fill [] p = ([], p)
fill (byte ∷ bytes) p =
    let rest = fill bytes (write_byte byte p) in if pipe_is_full p then (byte ∷ bytes, p) else rest

-- What the other environments did to the pipe while this one yielded, and whether the other end
-- turned out to be closed before that.
pub record Round : Type 0 where
  closed : Bool
  others : Pipe → Pipe

-- `pipe_read`, for the rounds that are given; none if it still waits after them.
unfoldable pub pipe_read : ℕ → List Round → Pipe → Option (List ℕ × Pipe)
pipe_read n [] p = none
pipe_read n (round ∷ rounds) p =
    let got = drain n p in
    let rest = pipe_read n rounds (round.others got.1) in
    if leb 1 (length got.0) || round.closed then some got else rest

-- `pipe_write`, for the rounds that are given: the bytes that it could not write, and the pipe.
unfoldable pub pipe_write : List ℕ → List Round → Pipe → Option (List ℕ × Pipe)
pipe_write bytes [] p = none
pipe_write bytes (round ∷ rounds) p =
    let left = fill bytes p in
    let rest = pipe_write left.0 rounds (round.others left.1) in
    if (length left.0 == 0) || round.closed then some left else rest

-- What a round of the loop of `_pipe_is_closed` reads in turn: `env_runs`, `pageref(fd)`,
-- `pageref(p)` and `env_runs` again. Other environments may run between two of them.
pub record Observed : Type 0 where
  runs_before : ℕ
  fd_ref : ℕ
  pipe_ref : ℕ
  runs_after : ℕ

-- `_pipe_is_closed`, for the rounds that are given; none if every round was interrupted.
unfoldable pub pipe_is_closed : List Observed → Option Bool
pipe_is_closed [] = none
pipe_is_closed (o ∷ rounds) =
    let again = pipe_is_closed rounds in
    if o.runs_before == o.runs_after then some (o.fd_ref == o.pipe_ref) else again
