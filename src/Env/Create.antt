-- ===== src/Env/Create.antt =====
-- The first environments: `load_icode_mapper`, `load_icode` and `env_create` of kern/env.c.
use spring_os.Base.{
  ℕ, zero, suc, ◌+◌, ◌-◌, ◌*◌, ◌/◌, ◌%◌, ◌<◌, ◌≡◌, ◌&&◌, Option, none, some, ltb, leb, ◌==◌,
  if◌then◌else◌, update,
}
use spring_os.Base.Bits.{byte_of, word_of, byte_of-word_of}
use spring_os.Base.Run.{Cmd, pure, modify, check, when, panic_on, ◌>>=◌, ◌>>◌}
use spring_os.Pmap.{PageState, kaddr, page_alloc, page_insert}
use spring_os.Kernel.{Kernel, status_runnable, on_vm, set_env, get_env, sched_insert_head}
use spring_os.Env.{env_alloc}
use spring_os.Elf.{Phdr, Mapper, elf_load_seg, is_elf, phdr_at, half_at, word_at}

-- The byte `b` of a page after `memcpy` of `len` bytes to `offset`.
unfoldable pub copied_byte : (ℕ → ℕ) → (offset src len : ℕ) → (ℕ → ℕ) → ℕ → ℕ
copied_byte binary offset src len page b =
    if leb offset b && ltb b (offset + len)
    then binary (src + (b - offset))
    else byte_of (page (b / 4)) (b % 4)

unfoldable pub copied_word : (ℕ → ℕ) → (offset src len : ℕ) → (ℕ → ℕ) → ℕ → ℕ
copied_word binary offset src len page j =
    word_of (λ t. copied_byte binary offset src len page (4 * j + t))

-- The words of the page have the bytes that were copied.
byte_of-copied_word :
    (binary : ℕ → ℕ) (offset src len : ℕ) (page : ℕ → ℕ) (j t : ℕ)
    → ((i : ℕ) → copied_byte binary offset src len page i < 256)
    → t < 4
    → byte_of (copied_word binary offset src len page j) t
      ≡ copied_byte binary offset src len page (4 * j + t)
unfolding copied_word
byte_of-copied_word binary offset src len page j t small lt =
    byte_of-word_of (λ x. copied_byte binary offset src len page (4 * j + x)) t
      (λ i. small (4 * j + i)) lt

unfoldable pub copy_in : (ℕ → ℕ) → ℕ → (offset : ℕ) → Option ℕ → ℕ → Cmd PageState (Unit {0})
copy_in binary pp offset none len = pure tt
copy_in binary pp offset (some src) len = do
  p ← kaddr pp
  modify λ s. record s { words = update s.words p (copied_word binary offset src len (s.words p)) }

unfoldable pub load_icode_mapper : (ℕ → ℕ) → ℕ → Mapper Kernel
load_icode_mapper binary e va offset perm src len = do
  pp ← on_vm page_alloc
  on_vm (copy_in binary pp offset src len)
  x ← get_env e
  on_vm (page_insert x.env_pgdir x.env_asid pp va perm)

-- PT_LOAD
abbrev pub pt_load : ℕ
pt_load = 1

unfoldable pub load_phdr : (ℕ → ℕ) → ℕ → Phdr → Cmd Kernel (Unit {0})
load_phdr binary e ph =
    when (ph.p_type == pt_load)
      (λ k. panic_on (elf_load_seg (load_icode_mapper binary e) ph ph.p_offset k))

-- ELF_FOREACH_PHDR_OFF, with the headers left.
unfoldable pub load_phdrs : ℕ → (ℕ → ℕ) → ℕ → ℕ → Cmd Kernel (Unit {0})
load_phdrs zero binary e ph_off = pure tt
load_phdrs (suc left) binary e ph_off = do
  load_phdr binary e (phdr_at binary ph_off)
  load_phdrs left binary e (ph_off + half_at binary 42)

unfoldable pub load_icode : ℕ → (ℕ → ℕ) → ℕ → Cmd Kernel (Unit {0})
load_icode e binary size = do
  check (is_elf binary size)
  load_phdrs (half_at binary 44) binary e (word_at binary 28)
  set_env e (λ x. record x { env_tf = record x.env_tf { cp0_epc = word_at binary 24 } })

-- The error of `env_alloc` is not looked at: the pointer would not be initialised.
unfoldable pub env_create : (ℕ → ℕ) → ℕ → ℕ → Cmd Kernel ℕ
env_create binary size priority = do
  e ← (λ k. panic_on (env_alloc 0 k))
  set_env e (λ x. record x { env_pri = priority; env_status = status_runnable })
  load_icode e binary size
  sched_insert_head e
  pure e
