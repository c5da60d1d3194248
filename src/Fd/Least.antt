-- ===== src/Fd/Least.antt =====
-- `fd_alloc` of user/lib/fd.c gives the least free descriptor.
use spring_os.Base.{
  ℕ, zero, suc, ◌+◌, ◌/◌, ◌<◌, ◌≤◌, ◌≡◌, refl, subst, inl, inr, Bool, true, false, ◌&&◌, ◌==◌,
  arith, Bool-cases,
}
use spring_os.Base.Run.{Error, max_open, Ensures, returned, failed, Ensures-mono}
use spring_os.Mmu.{pdmap}
use spring_os.Fd.{Process, maxfd, num2fd, is_mapped, fd_from, fd_alloc, fd2num}

-- A descriptor has a page, in a table that is there.
abbrev pub in_use : Process → ℕ → Bool
in_use p i = p.vpd (num2fd i / pdmap) && is_mapped p (num2fd i)

-- The address of the first descriptor from `i` on that is not in use.
pub record LeastFrom (i : ℕ) (rounds : ℕ) (p : Process) (va : ℕ) (q : Process) : Type 0 where
  pub number : ℕ
  pub address : va ≡ num2fd number
  pub from : i ≤ number
  pub inside : number < i + rounds
  pub free : in_use p number ≡ false
  pub below : (k : ℕ) → i ≤ k → k < number → in_use p k ≡ true
  pub same : q ≡ p

pub record NoneFree (i : ℕ) (rounds : ℕ) (p : Process) (e : Error) (q : Process) : Type 0 where
  pub code : e ≡ max_open
  pub all_used : (k : ℕ) → i ≤ k → k < i + rounds → in_use p k ≡ true
  pub same : q ≡ p

LeastFrom-here :
    (i rounds : ℕ) (p : Process) → in_use p i ≡ false → LeastFrom i (suc rounds) p (num2fd i) p
LeastFrom-here i rounds p free = record {
  number = i;
  address = refl;
  from = omega arith;
  inside = omega arith;
  free = free;
  below = λ k a b. absurd (omega (arith, a, b));
  same = refl;
}

from-suc :
    (i : ℕ) (p : Process) (n : ℕ)
    → in_use p i ≡ true
    → ((k : ℕ) → i + 1 ≤ k → k < n → in_use p k ≡ true)
    → (k : ℕ) → i ≤ k
    → k < n
    → in_use p k ≡ true
from-suc i p n used later k a b = elim (Bool-cases (k == i)) [
  | inl same ↦ let z : i ≡ k = ground arith in subst (λ x. in_use p x ≡ true) z used
  | inr other ↦ later k (ground arith) b
]

fd_from-LeastFrom :
    (rounds i : ℕ) (p : Process)
    → Ensures (LeastFrom i rounds p) (NoneFree i rounds p) (fd_from rounds i p)
unfolding fd_from
fd_from-LeastFrom zero i p =
    failed (record { code = refl; all_used = λ k a b. absurd (omega (arith, a, b)); same = refl })
fd_from-LeastFrom (suc rounds) i p = elim (Bool-cases (p.vpd (num2fd i / pdmap))) [
  | inr no_table ↦ rw no_table (returned (LeastFrom-here i rounds p (rw no_table refl)))
  | inl table ↦ elim (Bool-cases (is_mapped p (num2fd i))) [
    | inr free ↦ rw (table, free) (returned (LeastFrom-here i rounds p (rw (table, free) refl)))
    | inl used ↦
        let here : in_use p i ≡ true = rw (table, used) refl in
        rw (table, used)
          (Ensures-mono (fd_from-LeastFrom rounds (i + 1) p)
            (λ va q l. record {
              number = l.number;
              address = l.address;
              from = omega (arith, l.from);
              inside = omega (arith, l.inside);
              free = l.free;
              below = from-suc i p l.number here l.below;
              same = l.same;
            })
            (λ e q n. record {
              code = n.code;
              all_used = λ k a b.
                  from-suc i p (i + suc rounds) here (λ x c d. n.all_used x c (omega (arith, d))) k
                    a b;
              same = n.same;
            }))
  ]
]

-- `fd_alloc` gives the address of the least descriptor below 31 that has no page, and changes
-- nothing; it fails with -E_MAX_OPEN only if all these descriptors have pages.
pub fd_alloc-LeastFrom : (p : Process) → Ensures (LeastFrom 0 31 p) (NoneFree 0 31 p) (fd_alloc p)
unfolding fd_alloc
fd_alloc-LeastFrom p = fd_from-LeastFrom 31 0 p

-- The number of the descriptor at the address of number `i` is `i`.
pub fd2num-num2fd : (i : ℕ) → i < maxfd → fd2num (num2fd i) ≡ i
unfolding fd2num num2fd
fd2num-num2fd i lt = omega (arith, lt)
