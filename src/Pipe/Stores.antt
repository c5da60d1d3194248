-- ===== src/Pipe/Stores.antt =====
-- The two parts of the statement in `pipe_write` (user/lib/pipe.c) that writes a byte.
use spring_os.Base.{ℕ, suc, ◌+◌, ◌-◌, ◌%◌, ◌^◌, ◌≤◌, ◌<◌, ◌≡◌, refl, [], ◌∷◌, ◌++◌, arith}
use spring_os.Pipe.{Pipe, next_byte, store_byte, write_position, write_byte}
use spring_os.Pipe.Fifo.{contents, segment-update, segment-snoc, IsValid}

write_byte-parts : (byte : ℕ) (p : Pipe) → write_byte byte p ≡ write_position (store_byte byte p)
unfolding write_byte write_position store_byte
write_byte-parts byte p = refl

-- The store of a byte behind the others changes neither what is in the pipe nor the oldest byte.
pub contents-store :
    (byte : ℕ) (p : Pipe)
    → p.p_rpos ≤ p.p_wpos
    → p.p_wpos < p.p_rpos + 32
    → contents (store_byte byte p) ≡ contents p
unfolding contents store_byte
contents-store byte p le lt =
    segment-update p.p_buf p.p_rpos (p.p_wpos - p.p_rpos) p.p_wpos byte (omega (arith, le)) lt

pub next_byte-store :
    (byte : ℕ) (p : Pipe)
    → p.p_rpos < p.p_wpos
    → p.p_wpos < p.p_rpos + 32
    → next_byte (store_byte byte p) ≡ next_byte p
unfolding next_byte store_byte
next_byte-store byte p lt lt' = ground (arith, lt, lt')

-- When the position moves on, the byte that is stored there is behind the others.
pub contents-write_position :
    (room byte : ℕ) (p : Pipe)
    → IsValid (suc room) p
    → p.p_wpos < p.p_rpos + 32
    → p.p_buf (p.p_wpos % 32) ≡ byte
    → (contents (write_position p) ≡ contents p ++ byte ∷ []) × IsValid room (write_position p)
unfolding contents write_position
contents-write_position room byte p v used stored =
    let pos : (p.p_wpos + 1) % 2 ^ 32 ≡ p.p_wpos + 1 = omega (arith, v.counts) in
    let size : p.p_wpos + 1 - p.p_rpos ≡ suc (p.p_wpos - p.p_rpos) = omega (arith, v.behind) in
    let at : p.p_rpos + (p.p_wpos - p.p_rpos) ≡ p.p_wpos = omega (arith, v.behind) in
    (
      rw (pos, size, segment-snoc p.p_buf p.p_rpos (p.p_wpos - p.p_rpos), at, stored) refl,
      record {
        behind = rw pos (omega (arith, v.behind));
        fits = rw pos (omega (arith, used));
        counts = rw pos (omega (arith, v.counts));
      },
    )
