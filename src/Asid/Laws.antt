-- ===== src/Asid/Laws.antt =====
-- `asid_alloc` hands out the least identifier that is not in use, and `asid_free` gives it back.
use spring_os.Base.{
  ℕ, zero, suc, ◌+◌, ◌/◌, ◌%◌, ◌<◌, ◌≡◌, refl, inl, inr, true, false, ◌==◌, if◌then◌else◌, arith,
  Bool-cases, ap,
}
use spring_os.Base.Run.{no_free_env, Ensures, returned, failed}
use spring_os.Base.Bits.{test_bit-set_bit, test_bit-clear_bit}
use spring_os.Kernel.{Kernel}
use spring_os.Asid.{nasid, asid_used, asid_mark, asid_unmark, asid_loop, asid_alloc}

index_eq : (i j : ℕ) → i / 32 ≡ j / 32 → i % 32 ≡ j % 32 → i ≡ j
index_eq i j p q = omega arith

-- Marking an identifier changes that identifier's bit only.
pub asid_used-mark :
    (b : ℕ → ℕ) (i j : ℕ) → asid_used (asid_mark b i) j ≡ (if i == j then true else asid_used b j)
unfolding asid_used asid_mark
asid_used-mark b i j =
    ground (arith, index_eq i j, test_bit-set_bit (b (i / 32)) (i % 32) (j % 32), ap b)

pub asid_used-unmark :
    (b : ℕ → ℕ) (i j : ℕ)
    → asid_used (asid_unmark b i) j ≡ (if i == j then false else asid_used b j)
unfolding asid_used asid_unmark
asid_used-unmark b i j = ground (
  arith,
  index_eq i j,
  test_bit-clear_bit (b (i / 32)) (i % 32) (j % 32) (omega arith) (omega arith),
)

-- What a successful `asid_alloc` does.
pub record Taken (k : Kernel) (i : ℕ) (l : Kernel) : Type 0 where
  pub in_range : i < nasid
  pub was_free : asid_used k.asid_bitmap i ≡ false
  pub least : (j : ℕ) → j < i → asid_used k.asid_bitmap j ≡ true
  pub marked :
      (j : ℕ) → asid_used l.asid_bitmap j ≡ (if i == j then true else asid_used k.asid_bitmap j)
  pub rest : l ≡ record k { asid_bitmap = l.asid_bitmap }

asid_loop-Taken :
    (n i : ℕ) (k : Kernel)
    → i + n ≡ nasid
    → ((j : ℕ) → j < i → asid_used k.asid_bitmap j ≡ true)
    → Ensures
        (Taken k)
        (λ e l.
          (e ≡ no_free_env) × (l ≡ k) × ((j : ℕ) → j < nasid → asid_used k.asid_bitmap j ≡ true))
        (asid_loop n i k)
unfolding asid_loop
asid_loop-Taken zero i k e below = failed (refl, refl, λ j h. below j (omega arith))
asid_loop-Taken (suc n) i k e below = elim (Bool-cases (asid_used k.asid_bitmap i)) [
  | inl used ↦ rw used (asid_loop-Taken n (i + 1) k (omega arith) (λ j h. ground (arith, below j)))
  | inr unused ↦ rw unused (
      returned (record {
        in_range = omega arith;
        was_free = unused;
        least = below;
        marked = asid_used-mark k.asid_bitmap i;
        rest = refl;
      }))
]

-- `asid_alloc` returns the least identifier below 64 whose bit is clear, sets that bit, and
-- changes no other bit and nothing else; it fails with -E_NO_FREE_ENV only if all 64 bits are
-- set, and changes nothing then.
pub asid_alloc-Taken :
    (k : Kernel)
    → Ensures
        (Taken k)
        (λ e l.
          (e ≡ no_free_env) × (l ≡ k) × ((j : ℕ) → j < nasid → asid_used k.asid_bitmap j ≡ true))
        (asid_alloc k)
unfolding asid_alloc
asid_alloc-Taken k = asid_loop-Taken nasid 0 k refl (λ j h. absurd (omega arith))
