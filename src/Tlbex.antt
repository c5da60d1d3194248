-- ===== src/Tlbex.antt =====
-- The TLB exceptions of kern/tlbex.c: a refill, which may allocate a page, and the hand-over of a
-- write to a read-only page to the user handler.
pub mod Refill
pub mod Examples
use spring_os.Base.{
  ℕ, zero, suc, ◌+◌, ◌-◌, ◌*◌, ◌%◌, ◌^◌, Bool, true, false, not, ◌&&◌, ◌||◌, Option, none, some,
  ltb, leb, ◌==◌, if◌then◌else◌, update,
}
use spring_os.Base.Run.{Cmd, ok, pure, fault, get, modify, check, ◌>>=◌, ◌>>◌}
use spring_os.Mmu.{by2pg, pte_addr, pte_d, ulim, uvpt, upages, uenvs, utop, ustacktop, utemp}
use spring_os.Pmap.{PageState, Slot, page_alloc, page_insert, page_lookup, read_word}
use spring_os.Kernel.{Trapframe, Env, Kernel, current, get_env}
use spring_os.Base.Run.{panic_on}

-- The addresses at which `passive_alloc` panics.
unfoldable pub forbidden : ℕ → Bool
forbidden va =
    ltb va utemp
    || (leb ustacktop va && ltb va (ustacktop + by2pg))
    || (leb uenvs va && ltb va upages)
    || (leb upages va && ltb va uvpt)
    || leb ulim va

unfoldable pub passive_alloc : ℕ → ℕ → ℕ → Cmd PageState (Unit {0})
passive_alloc va pgdir asid = do
  check (not (forbidden va))
  p ← (λ s. panic_on (page_alloc s))
  λ s. panic_on (page_insert pgdir asid p (pte_addr va) pte_d s)

-- One round of the loop of `_do_tlb_refill`, after `page_lookup`, with `later` for the next rounds.
unfoldable pub refill_with :
    Cmd PageState (Option ℕ) → ℕ → ℕ → ℕ → Option (ℕ × Slot) → Cmd PageState (Option ℕ)
refill_with later va pgdir asid none = do passive_alloc va pgdir asid; later
refill_with later va pgdir asid (some (pp, slot)) = do pte ← read_word slot; pure (some pte)

-- `_do_tlb_refill` with `pgdir` for `cur_pgdir`, for so many rounds; none if it still goes on.
unfoldable pub do_tlb_refill : ℕ → ℕ → ℕ → ℕ → Cmd PageState (Option ℕ)
do_tlb_refill zero va pgdir asid = pure none
do_tlb_refill (suc rounds) va pgdir asid =
    page_lookup pgdir va >>= refill_with (do_tlb_refill rounds va pgdir asid) va pgdir asid

-- UXSTACKTOP, the size of a Trapframe, and the size of a register.
abbrev pub uxstacktop : ℕ
uxstacktop = utop

abbrev pub frame_size : ℕ
frame_size = 38 * 4

-- The new frame, the user address that the old frame is copied to, and the copy.
pub record Handed : Type 0 where
  pub tf : Trapframe
  pub address : ℕ
  pub copy : Trapframe

unfoldable pub exception_sp : ℕ → ℕ
exception_sp sp =
    let top = if ltb sp ustacktop || leb uxstacktop sp then uxstacktop else sp in
    (top + (2 ^ 32 - frame_size)) % 2 ^ 32

unfoldable pub do_tlb_mod : Trapframe → Cmd Kernel Handed
do_tlb_mod tf = do
  c ← current
  x ← get_env c
  let sp = exception_sp (tf.regs 29)
  if x.env_user_tlb_mod_entry == 0
      then fault
      else pure (record {
        tf = record tf {
          regs = update (update tf.regs 4 sp) 29 ((sp + (2 ^ 32 - 4)) % 2 ^ 32);
          cp0_epc = x.env_user_tlb_mod_entry;
        };
        address = sp;
        copy = tf;
      })
