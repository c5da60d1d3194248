-- ===== src/Sched/Rotation.antt =====
-- Round robin (kern/sched.c): under repeated yields each runnable environment gets its turn.
use spring_os.Base.{
  ℕ, zero, suc, ◌≡◌, refl, sym, ◌∙◌, true, Option, some, List, [], ◌∷◌, ◌++◌, ◌==◌, arith, has,
  get_elem?,
}
use spring_os.Base.Run.{Cmd, pure, ◌>>◌, Ensures, returned, Ensures-mono, Ensures-bind}
use spring_os.Kernel.{status_runnable, Kernel}
use spring_os.Sched.{is_runnable, schedule}
use spring_os.Sched.Slices.{IsScheduled, rotated, ticked, schedule-Picked}

-- `n` yields in a row, with no other event between them.
pub yields : ℕ → Cmd Kernel (Unit {0})
yields zero = pure tt
yields (suc n) = schedule true >> yields n

-- The environment at the head of the list is the one that runs, as after every switch.
pub record HeadRuns (k : Kernel) (c : ℕ) (rest : List ℕ) : Type 0 where
  pub scheduled : IsScheduled k
  pub curenv : k.curenv ≡ some c
  pub queue : k.env_sched_list ≡ c ∷ rest

rotated-head :
    (k : Kernel) (o : Option ℕ) (c : ℕ) (rest : List ℕ)
    → o ≡ some c
    → IsScheduled k
    → k.env_sched_list ≡ c ∷ rest
    → rotated k o ≡ rest ++ c ∷ []
unfolding rotated is_runnable
rotated-head k o c rest e s q =
    let inside : has c k.env_sched_list ≡ true = rw q (ground arith) in
    let run : ((k.envs c).env_status == status_runnable) ≡ true = sym (s.exact c) ∙ inside in
    rw (e, run, q) (ground arith)

yield_step :
    {k : Kernel} {c : ℕ} {rest : List ℕ}
    → HeadRuns k c rest
    → Ensures
        (λ _ l. (n : ℕ) × (behind : List ℕ) × (rest ++ c ∷ [] ≡ n ∷ behind) × HeadRuns l n behind)
        (λ f l. ⊥)
        (schedule true k)
yield_step {k} {c} {rest} h =
    let t : IsScheduled (ticked k) = record {
      distinct = h.scheduled.distinct;
      exact = h.scheduled.exact;
    } in
    Ensures-mono (schedule-Picked k true h.scheduled (λ e. cc (e, h.queue)) refl)
      (λ _ l p. (
        p.next,
        p.behind,
        sym (rotated-head (ticked k) k.curenv c rest h.curenv t h.queue) ∙ p.queue,
        record { scheduled = p.scheduled; curenv = p.curenv; queue = p.sched },
      ))
      (λ f l no. no)

get_elem?-snoc :
    (xs : List ℕ) (c n e : ℕ) → get_elem? xs n ≡ some e → get_elem? (xs ++ c ∷ []) n ≡ some e
get_elem?-snoc [] c n e h = cc
get_elem?-snoc (x ∷ xs) c zero e h = h
get_elem?-snoc (x ∷ xs) c (suc n) e h = get_elem?-snoc xs c n e h

-- If the list holds exactly the runnable environments and its head runs, the environment at
-- place n of the list is the running one after n yields with no event between them.
pub yields_reach :
    (n : ℕ) (k : Kernel) (c e : ℕ) (rest : List ℕ)
    → HeadRuns k c rest
    → get_elem? (c ∷ rest) n ≡ some e
    → Ensures (λ _ l. l.curenv ≡ some e) (λ f l. ⊥) (yields n k)
unfolding yields
yields_reach zero k c e rest h at_n = returned (h.curenv ∙ at_n)
yields_reach (suc n) k c e rest h at_n = Ensures-bind (yield_step h) (λ _ l (m, behind, q, h').
    yields_reach n l m e behind h' (rw (← q) (get_elem?-snoc rest c n e at_n)))
