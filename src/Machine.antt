-- ===== src/Machine.antt =====
-- The machine that the kernel's entry points work on: user memory and the devices beside the state
-- of the kernel; the console of kern/console.c, and the calls on devices of kern/syscall_all.c.
use spring_os.Base.{
  ℕ, zero, suc, ◌+◌, ◌-◌, ◌*◌, ◌/◌, ◌%◌, ◌^◌, ◌&&◌, ◌||◌, List, [], ◌∷◌, ltb, leb, ◌==◌,
  if◌then◌else◌, update,
}
use spring_os.Base.Bits.{byte_of, word_of}
use spring_os.Base.Run.{inval, Cmd, ok, pure, fail, get, modify, put_back, ◌>>=◌, ◌>>◌}
use spring_os.Mmu.{utop}
use spring_os.Kernel.{Trapframe, Kernel}
use spring_os.Syscall.{is_illegal_va_range, is_illegal_dev_pa_range}
use spring_os.Tlbex.{frame_size}

-- The devices: what a transfer of bytes to or from a physical address does to them.
pub record Bus (D : Type 0) : Type 0 where
  pub store : ℕ → List ℕ → D → D
  pub load : ℕ → ℕ → D → List ℕ × D

-- The kernel, the bytes of user memory as the running environment sees them, and the devices.
pub record Machine (D : Type 0) : Type 0 where
  pub kernel : Kernel
  pub user : ℕ → ℕ
  pub devices : D

-- `len` bytes from an address on.
unfoldable pub bytes_at : (ℕ → ℕ) → ℕ → ℕ → List ℕ
bytes_at user at zero = []
bytes_at user at (suc len) = user at ∷ bytes_at user (at + 1) len

-- Memory after the bytes are put there.
unfoldable pub put_bytes : (ℕ → ℕ) → ℕ → List ℕ → ℕ → ℕ
put_bytes user at [] = user
put_bytes user at (x ∷ xs) = put_bytes (update user at x) (at + 1) xs

-- The word of a frame at a place: 32 registers and six special ones.
unfoldable pub frame_word : Trapframe → ℕ → ℕ
frame_word tf i =
    if ltb i 32
    then tf.regs i
    else if i == 32
    then tf.cp0_status
    else if i == 33
    then tf.hi
    else if i == 34
    then tf.lo
    else if i == 35
    then tf.cp0_badvaddr
    else if i == 36
    then tf.cp0_cause
    else tf.cp0_epc

unfoldable pub user_word : (ℕ → ℕ) → ℕ → ℕ
user_word user at = word_of (λ t. user (at + t))

-- The frame that user memory holds at an address, and memory with a frame stored there.
unfoldable pub frame_at : (ℕ → ℕ) → ℕ → Trapframe
frame_at user at = record {
  regs = λ i. user_word user (at + 4 * i);
  cp0_status = user_word user (at + 4 * 32);
  hi = user_word user (at + 4 * 33);
  lo = user_word user (at + 4 * 34);
  cp0_badvaddr = user_word user (at + 4 * 35);
  cp0_cause = user_word user (at + 4 * 36);
  cp0_epc = user_word user (at + 4 * 37);
}

unfoldable pub put_frame : (ℕ → ℕ) → ℕ → Trapframe → ℕ → ℕ
put_frame user at tf b =
    if leb at b && ltb b (at + frame_size)
    then byte_of (frame_word tf ((b - at) / 4)) ((b - at) % 4)
    else user b

-- How a call ends: with a value for $v0, in another environment, or still waiting for a key.
pub data Answer : Type 0 where
  value : ℕ → Answer
  switched waiting : Answer

-- The registers of the console at 0x10000000: DEV_CONS_PUTGETCHAR.
abbrev pub console : ℕ
console = 0x10000000

-- A `char` as an `int`.
unfoldable pub char_value : ℕ → ℕ
char_value c = if ltb c 128 then c else c + (2 ^ 32 - 256)

-- What `char` a one-byte transfer brings.
unfoldable pub first_byte : List ℕ → ℕ
first_byte [] = 0
first_byte (x ∷ xs) = x % 256

-- `*(u_int *) (sp + n)` with the wrap-around of 32 bits.
unfoldable pub stack_word : (ℕ → ℕ) → Trapframe → ℕ → ℕ
stack_word user tf n = user_word user ((tf.regs 29 + n) % 2 ^ 32)

unfoldable pub on_kernel : {D A : Type 0} → Cmd Kernel A → Cmd (Machine D) A
on_kernel m s = put_back (λ k. record s { kernel = k }) (m s.kernel)

module _ {D : Type 0} (bus : Bus D) where
  -- `printcharc`, one transfer to the console, and a loop of them.
  unfoldable pub printcharc : ℕ → Cmd (Machine D) (Unit {0})
  printcharc ch = modify λ s. record s { devices = bus.store console (ch % 256 ∷ []) s.devices }

  unfoldable pub print_all : List ℕ → Cmd (Machine D) (Unit {0})
  print_all [] = pure tt
  print_all (x ∷ xs) = do printcharc x; print_all xs

  unfoldable pub sys_print_cons : ℕ → ℕ → Cmd (Machine D) Answer
  sys_print_cons at num =
      let end = (at + num) % 2 ^ 32 in
      if ltb utop end || leb utop at || ltb end at
      then fail inval
      else (do s ← get; print_all (bytes_at s.user at num); pure (value 0))

  -- `scancharc`
  unfoldable pub scancharc : Cmd (Machine D) ℕ
  scancharc s =
      let got = bus.load console 1 s.devices in
      ok (char_value (first_byte got.0)) (record s { devices = got.1 })

  -- The loop of `sys_cgetc` for so many rounds.
  unfoldable pub sys_cgetc : ℕ → Cmd (Machine D) Answer
  sys_cgetc zero = pure waiting
  sys_cgetc (suc rounds) = do ch ← scancharc; if ch == 0 then sys_cgetc rounds else pure (value ch)

  unfoldable pub sys_write_dev : ℕ → ℕ → ℕ → Cmd (Machine D) Answer
  sys_write_dev va pa len =
      if is_illegal_va_range va len || is_illegal_dev_pa_range pa len then fail inval else (do
        modify λ s. record s { devices = bus.store pa (bytes_at s.user va len) s.devices }
        pure (value 0))

  unfoldable pub sys_read_dev : ℕ → ℕ → ℕ → Cmd (Machine D) Answer
  sys_read_dev va pa len =
      if is_illegal_va_range va len || is_illegal_dev_pa_range pa len then fail inval else (do
        modify λ s.
            let got = bus.load pa len s.devices in
            record s { user = put_bytes s.user va got.0; devices = got.1 }
        pure (value 0))
