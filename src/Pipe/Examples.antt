-- ===== src/Pipe/Examples.antt =====
-- The pipe of user/lib/pipe.c with two bytes across the end of the ring.
use spring_os.Base.{false, [], ◌∷◌, update, arith}
use spring_os.Pipe.{Pipe, fill, Round, next_byte, read_byte, write_byte, store_byte, write_position}
use spring_os.Pipe.Fifo.{IsValid, Filled, fill-Filled}
use spring_os.Pipe.Ends.{Channel, channel, w_start, r_start}
use spring_os.Pipe.Channel.{Answer, pipe_read-Answer}

abbrev across : Pipe
across = record { p_rpos = 31; p_wpos = 33; p_buf = update (update (λ _. 0) 31 7) 0 8 }

across-IsValid : IsValid 100 across
across-IsValid = record { behind = omega arith; fits = omega arith; counts = omega arith }

fill-Filled_example :
    Filled 98 across (9 ∷ 10 ∷ []) (fill (9 ∷ 10 ∷ []) across).0 (fill (9 ∷ 10 ∷ []) across).1
fill-Filled_example = fill-Filled 98 (9 ∷ 10 ∷ []) across across-IsValid

abbrev idle_round : Round
idle_round = record { closed = false; others = write_byte 1 }

pipe_read-Answer_example : Answer 5 idle_round [] across
pipe_read-Answer_example = pipe_read-Answer 100 5 idle_round [] across across-IsValid (omega arith)

abbrev sending : Channel
sending = channel across (9 ∷ []) [] w_start r_start

-- The reader takes a byte while the writer is between its two steps.
abbrev later : Channel
later =
    channel (read_byte (write_position (store_byte 9 across))) []
      (next_byte (store_byte 9 across) ∷ []) w_start r_start
