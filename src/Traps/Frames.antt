-- ===== src/Traps/Frames.antt =====
-- A write to a read-only page: `do_tlb_mod` (kern/tlbex.c) puts the saved registers on the user's
-- exception stack, and `sys_set_trapframe` (kern/syscall_all.c) takes them back from there.
use spring_os.Base.{
  ℕ, suc, ◌+◌, ◌-◌, ◌*◌, ◌/◌, ◌%◌, ◌^◌, ◌<◌, ◌≡◌, ◌≢◌, refl, ap, ◌∙◌, true, false, ◌&&◌, some, ltb,
  leb, ◌==◌, arith, update,
}
use spring_os.Base.Run.{ok, Ensures, returned}
use spring_os.Base.Bits.{byte_of, word_of}
use spring_os.Kernel.{on_vm, Trapframe, current-some, get_env}
use spring_os.Env.{envid2env}
use spring_os.Syscall.{is_illegal_va_range, sys_set_trapframe}
use spring_os.Tlbex.{frame_size, exception_sp, do_tlb_mod}
use spring_os.Machine.{Bus, Machine, value, on_kernel, frame_at, put_frame, frame_word, user_word}
use spring_os.Traps.{
  set_trapframe, invoke, returning_value, handle_modified, give_frame, takes_store, fresh_page,
  reach_page,
}
use spring_os.Pmap.{PageState, page_lookup}
use spring_os.Pmap.Mapping.{MapsWell, mapped, slot_of, pte_of, page_lookup-mapped}
use spring_os.Tlbex.Refill.{do_tlb_refill-hit}
use spring_os.Traps.Reachable.{entered}

word_of-byte_of : (w : ℕ) → w < 2 ^ 32 → word_of (λ t. byte_of w t) ≡ w
unfolding word_of byte_of
word_of-byte_of w small = omega (arith, small)

-- The words of a frame are 32-bit words.
unfoldable pub IsFrame : Trapframe → Type 0
IsFrame tf = (i : ℕ) → frame_word tf i < 2 ^ 32

-- Two frames with the same 38 words.
unfoldable pub SameFrame : Trapframe → Trapframe → Type 0
SameFrame f g = (i : ℕ) → i < 38 → frame_word f i ≡ frame_word g i

frame_word-frame_at :
    (user : ℕ → ℕ) (at i : ℕ)
    → i < 38
    → frame_word (frame_at user at) i ≡ user_word user (at + 4 * i)
unfolding frame_word frame_at
frame_word-frame_at user at i lt = ground (arith, lt)

module _ (user : ℕ → ℕ) (at : ℕ) (tf : Trapframe) (small : IsFrame tf) where
  put_frame-byte :
      (i t : ℕ)
      → i < 38
      → t < 4
      → put_frame user at tf (at + 4 * i + t) ≡ byte_of (frame_word tf i) t
  unfolding put_frame
  put_frame-byte i t lt lt' =
      let inside : (leb at (at + 4 * i + t) && ltb (at + 4 * i + t) (at + frame_size)) ≡ true =
        ground (arith, lt, lt') in
      let place : (at + 4 * i + t - at) / 4 ≡ i = omega (arith, lt') in
      let rest : (at + 4 * i + t - at) % 4 ≡ t = omega (arith, lt') in rw (inside, place, rest) refl

  user_word-put_frame :
      (i : ℕ) → i < 38 → user_word (put_frame user at tf) (at + 4 * i) ≡ frame_word tf i
  unfolding user_word word_of IsFrame
  user_word-put_frame i lt =
      rw
        (
          put_frame-byte i 0 lt (omega arith),
          put_frame-byte i 1 lt (omega arith),
          put_frame-byte i 2 lt (omega arith),
          put_frame-byte i 3 lt (omega arith),
        )
        (word_of-byte_of (frame_word tf i) (small i))

  -- A frame that is stored is the frame that is read back.
  frame_at-put_frame : SameFrame (frame_at (put_frame user at tf) at) tf
  unfolding SameFrame
  frame_at-put_frame i lt =
      frame_word-frame_at (put_frame user at tf) at i lt ∙ user_word-put_frame i lt

-- The directory maps the address to a page that takes a store, and its tables are in order.
pub record CanStore (s : PageState) (pgdir va : ℕ) : Type 0 where
  pub in_order : MapsWell s pgdir va
  pub page : ℕ
  pub present : mapped s pgdir va ≡ some (page, slot_of s pgdir va)
  pub writable : takes_store (some (pte_of s pgdir va)) ≡ true

-- Such a page is reached without a change.
reach_page-CanStore :
    {D : Type 0} (rounds asid va : ℕ) (s : Machine D)
    → CanStore s.kernel.vm s.kernel.cur_pgdir va
    → reach_page (suc rounds) asid va s ≡ ok tt s
unfolding reach_page on_kernel on_vm fresh_page
reach_page-CanStore rounds asid va s c =
    let found : page_lookup s.kernel.cur_pgdir va s.kernel.vm
        ≡ ok (some (c.page, slot_of s.kernel.vm s.kernel.cur_pgdir va)) s.kernel.vm =
      page_lookup-mapped c.in_order ∙ ap (λ o. ok o s.kernel.vm) c.present in
    rw (found, do_tlb_refill-hit s.kernel.cur_pgdir asid va rounds found, c.writable) refl

-- The stack of the user handler lies in user space.
exception_sp-legal : (sp : ℕ) → is_illegal_va_range (exception_sp sp) 152 ≡ false
unfolding is_illegal_va_range exception_sp
exception_sp-legal sp = ground arith

module _ {D : Type 0} (bus : Bus D) (s : Machine D) (c left rounds asid : ℕ) where
  -- The user handler gives its frame back.
  restored :
      (t : Machine D) (at a b e : ℕ)
      → t.kernel.curenv ≡ some c
      → is_illegal_va_range at 152 ≡ false
      → invoke bus left rounds set_trapframe 0 at a b e t
        ≡ ok
            (value ((frame_at t.user at).regs 2))
            (record t { kernel = record t.kernel { kstack_tf = frame_at t.user at } })
  unfolding invoke returning_value sys_set_trapframe envid2env on_kernel
  restored t at a b e cur legal =
      let same : (c == c) ≡ true = ground arith in
      let now = current-some t.kernel c cur in rw (legal, now, now, same)

  -- The state in which the user handler starts.
  abbrev handed : Machine D
  handed =
      let tf = s.kernel.kstack_tf in
      let at = exception_sp (tf.regs 29) in
      record s {
        kernel = record s.kernel {
          kstack_tf = record tf {
            regs = update (update tf.regs 4 at) 29 ((at + (2 ^ 32 - 4)) % 2 ^ 32);
            cp0_epc = (s.kernel.envs c).env_user_tlb_mod_entry;
          };
        };
        user = put_frame s.user at tf;
      }

  handed-restored :
      (tf : Trapframe) (a b e : ℕ)
      → s.kernel.curenv ≡ some c
      → IsFrame s.kernel.kstack_tf
      → Ensures
          (λ v u.
            (v ≡ value (s.kernel.kstack_tf.regs 2))
            × SameFrame u.kernel.kstack_tf s.kernel.kstack_tf
            × (u.kernel ≡ record s.kernel { kstack_tf = u.kernel.kstack_tf }))
          (λ _ _. ⊥)
          (invoke bus left rounds set_trapframe 0
            (handed.kernel.kstack_tf.regs 4)
            a
            b
            e
            (entered handed tf handed.user handed.devices))
  unfolding SameFrame frame_word
  handed-restored tf a b e cur small =
      let old = s.kernel.kstack_tf in
      let back : SameFrame
          (frame_at (put_frame s.user (exception_sp (old.regs 29)) old)
            (exception_sp (old.regs 29)))
          old =
        frame_at-put_frame s.user (exception_sp (old.regs 29)) old small in
      rw
        (restored (entered handed tf handed.user handed.devices) (exception_sp (old.regs 29)) a b e
          cur (exception_sp-legal (old.regs 29)))
        (returned (ap value (back 2 (omega arith)), back, refl))

  -- If the current environment has a handler for writes to read-only pages, the saved registers
  -- are 32-bit words, and the place for the frame on the exception stack is a multiple of 4 and
  -- mapped writable in `cur_pgdir` (the page of its first and of its last byte, with the tables
  -- in order), the exception does not panic and starts the handler, and when the handler, with
  -- its own registers but the memory as it was, passes the address in its register $a0 to
  -- `sys_set_trapframe` for itself, all saved registers are as before the exception, the value
  -- is the old $v0, and nothing else of the kernel has changed
  pub handle_modified-restored :
      (tf : Trapframe) (a b e : ℕ)
      → s.kernel.curenv ≡ some c
      → (s.kernel.envs c).env_user_tlb_mod_entry ≢ 0
      → IsFrame s.kernel.kstack_tf
      → exception_sp (s.kernel.kstack_tf.regs 29) % 4 ≡ 0
      → CanStore s.kernel.vm s.kernel.cur_pgdir (exception_sp (s.kernel.kstack_tf.regs 29))
      → CanStore s.kernel.vm s.kernel.cur_pgdir (exception_sp (s.kernel.kstack_tf.regs 29) + 151)
      → Ensures
          (λ _ t.
            (t.kernel.kstack_tf.cp0_epc ≡ (s.kernel.envs c).env_user_tlb_mod_entry)
            × Ensures
                (λ v u.
                  (v ≡ value (s.kernel.kstack_tf.regs 2))
                  × SameFrame u.kernel.kstack_tf s.kernel.kstack_tf
                  × (u.kernel ≡ record s.kernel { kstack_tf = u.kernel.kstack_tf }))
                (λ _ _. ⊥)
                (invoke bus left rounds set_trapframe 0
                  (t.kernel.kstack_tf.regs 4)
                  a
                  b
                  e
                  (entered t tf t.user t.devices)))
          (λ _ _. ⊥)
          (handle_modified (suc rounds) asid s)
  unfolding handle_modified give_frame on_kernel do_tlb_mod get_env
  handle_modified-restored tf a b e cur entry small even first last =
      let there : ((s.kernel.envs c).env_user_tlb_mod_entry == 0) ≡ false = ground (arith, entry) in
      let place : ((exception_sp (s.kernel.kstack_tf.regs 29) % 4) == 0) ≡ true =
        ground (arith, even) in
      rw
        (
          current-some s.kernel c cur,
          there,
          place,
          reach_page-CanStore rounds asid (exception_sp (s.kernel.kstack_tf.regs 29)) s first,
          reach_page-CanStore rounds asid (exception_sp (s.kernel.kstack_tf.regs 29) + 151) s last,
        )
        (returned {s = handed} (refl, handed-restored tf a b e cur small))
