-- ===== src/Sched/Slices.antt =====
-- One call of `schedule` (kern/sched.c): who gets the processor, for how long, and what becomes of
-- the list of runnable environments.
use spring_os.Base.{
  ℕ, ◌+◌, ◌%◌, ◌^◌, ◌≡◌, ◌≢◌, refl, sym, ap, ◌∙◌, inl, inr, Bool, true, false, not, ◌||◌, Option,
  none, some, List, [], ◌∷◌, ◌++◌, ◌==◌, if◌then◌else◌, arith, has, erase, Distinct, Bool-cases,
  has-append, has-erase_ne, has-erase_self, Distinct-erase, Distinct-snoc,
}
use spring_os.Base.Run.{ok, panic, Ensures, Ensures-mono}
use spring_os.Kernel.{status_runnable, Kernel}
use spring_os.Env.Running.{UpToFrame, Runs, env_run-Runs}
use spring_os.Sched.{decrement, is_spent, is_runnable, requeue, run_head, pick, go_on, schedule}

-- The list holds each runnable environment once, and no other.
pub record IsScheduled (k : Kernel) : Type 0 where
  pub distinct : Distinct k.env_sched_list
  pub exact : (e : ℕ) → has e k.env_sched_list ≡ ((k.envs e).env_status == status_runnable)

IsScheduled-Runs : {k l : Kernel} {e : ℕ} → IsScheduled k → Runs k e l → IsScheduled l
IsScheduled-Runs {k} {l} s r = record {
  distinct = rw r.sched s.distinct;
  exact = λ x. rw (r.sched, r.status x) (s.exact x);
}

-- The list after the current environment, if it is still runnable, has gone to the tail.
unfoldable pub rotated : Kernel → Option ℕ → List ℕ
rotated k none = k.env_sched_list
rotated k (some c) =
    if is_runnable k (some c) then erase c k.env_sched_list ++ c ∷ [] else k.env_sched_list

requeue-rotated :
    (k : Kernel) (o : Option ℕ)
    → IsScheduled k
    → requeue o k ≡ ok tt (record k { env_sched_list = rotated k o })
unfolding requeue rotated is_runnable
requeue-rotated k none s = refl
requeue-rotated k (some c) s = elim (Bool-cases ((k.envs c).env_status == status_runnable)) [
  | inl run ↦
      let inside : has c k.env_sched_list ≡ true = s.exact c ∙ run in
      let gone : has c (erase c k.env_sched_list) ≡ false = has-erase_self c _ s.distinct in
      rw (run, inside, gone)
  | inr other ↦ rw other
]

snoc-ne : (xs : List ℕ) (a : ℕ) → xs ++ a ∷ [] ≢ []
snoc-ne [] a h = cc
snoc-ne (x ∷ xs) a h = cc

rotated-IsScheduled :
    (k : Kernel) (o : Option ℕ)
    → IsScheduled k
    → IsScheduled (record k { env_sched_list = rotated k o })
unfolding rotated is_runnable
rotated-IsScheduled k none s = record { distinct = s.distinct; exact = s.exact }
rotated-IsScheduled k (some c) s = elim (Bool-cases ((k.envs c).env_status == status_runnable)) [
  | inl run ↦ rw run (record {
    distinct = Distinct-snoc c _ (Distinct-erase c _ s.distinct) (has-erase_self c _ s.distinct);
    exact = λ e. ground (
      arith,
      has-append e (erase c k.env_sched_list) (c ∷ []),
      has-erase_ne e c k.env_sched_list,
      has-erase_self c k.env_sched_list s.distinct,
      s.exact e,
    );
  })
  | inr other ↦ rw other (record { distinct = s.distinct; exact = s.exact })
]

-- A new environment gets the processor: it heads the list, and has a slice of its priority.
pub record Picked (k : Kernel) (l : Kernel) : Type 0 where
  pub next : ℕ
  pub behind : List ℕ
  pub queue : rotated k k.curenv ≡ next ∷ behind
  pub sched : l.env_sched_list ≡ next ∷ behind
  pub curenv : l.curenv ≡ some next
  pub count : l.count ≡ (k.envs next).env_pri
  pub runs : (l.envs next).env_runs ≡ ((k.envs next).env_runs + 1) % 2 ^ 32
  pub like : (x : ℕ) → UpToFrame (l.envs x) (k.envs x)
  pub scheduled : IsScheduled l
  pub free_list : l.env_free_list ≡ k.env_free_list
  pub asids : l.asid_bitmap ≡ k.asid_bitmap

run_head-Picked :
    (k : Kernel) (q : List ℕ)
    → q ≡ rotated k k.curenv
    → q ≢ []
    → IsScheduled (record k { env_sched_list = q })
    → Ensures (λ _ l. Picked k l) (λ f l. ⊥) (run_head q (record k { env_sched_list = q }))
unfolding run_head
run_head-Picked k [] eq ne s = absurd (ne refl)
run_head-Picked k (n ∷ rest) eq ne s =
    let r : Kernel = record k { env_sched_list = n ∷ rest; count = (k.envs n).env_pri } in
    let run : (k.envs n).env_status ≡ status_runnable = ground (arith, s.exact n) in
    Ensures-mono (env_run-Runs r n run)
      (λ _ l w. record {
        next = n;
        behind = rest;
        queue = sym eq;
        sched = w.sched;
        curenv = w.curenv;
        count = w.count;
        runs = w.runs;
        like = w.like;
        scheduled = IsScheduled-Runs {k = r} (record { distinct = s.distinct; exact = s.exact }) w;
        free_list = w.free_list;
        asids = w.asids;
      })
      (λ f l no. no)

rotated-ne : (k : Kernel) (o : Option ℕ) → k.env_sched_list ≢ [] → rotated k o ≢ []
unfolding rotated
rotated-ne k none ne = ne
rotated-ne k (some c) ne = elim (Bool-cases (is_runnable k (some c))) [
  | inl run ↦ rw run (snoc-ne (erase c k.env_sched_list) c)
  | inr other ↦ rw other ne
]

pick-Picked :
    (k : Kernel)
    → IsScheduled k
    → k.env_sched_list ≢ []
    → Ensures (λ _ l. Picked k l) (λ f l. ⊥) (pick k)
unfolding pick
pick-Picked k s ne = rw (requeue-rotated k k.curenv s) (
    run_head-Picked k (rotated k k.curenv) refl (rotated-ne k k.curenv ne)
      (rotated-IsScheduled k k.curenv s))

-- The state after the slice counter went down by one.
abbrev pub ticked : Kernel → Kernel
ticked k = record k { count = decrement k.count }

ticked-IsScheduled : (k : Kernel) → IsScheduled k → IsScheduled (ticked k)
ticked-IsScheduled k s = record { distinct = s.distinct; exact = s.exact }

is_runnable-ticked : (k : Kernel) (o : Option ℕ) → is_runnable (ticked k) o ≡ is_runnable k o
unfolding is_runnable
is_runnable-ticked k none = refl
is_runnable-ticked k (some c) = refl

is_runnable-current :
    (k : Kernel) (c : ℕ)
    → k.curenv ≡ some c
    → (k.envs c).env_status ≡ status_runnable
    → is_runnable (ticked k) k.curenv ≡ true
unfolding is_runnable
is_runnable-current k c cur run = ground arith

go_on-Runs :
    (k : Kernel) (o : Option ℕ) (c : ℕ)
    → o ≡ some c
    → (k.envs c).env_status ≡ status_runnable
    → IsScheduled k
    → Ensures (λ _ l. Runs k c l × IsScheduled l) (λ f l. ⊥) (go_on o k)
unfolding go_on
go_on-Runs k o c e run s =
    rw e (Ensures-mono (env_run-Runs k c run) (λ _ l w. (w, IsScheduled-Runs s w)) (λ f l no. no))

-- On a yield, at the end of a slice, and if the current environment is absent or not runnable,
-- `schedule` moves the current environment, if runnable, to the tail of a list that is not
-- empty, runs the head for a slice of its priority, and keeps the list holding exactly the
-- runnable environments, each once.
pub schedule-Picked :
    (k : Kernel) (yield : Bool)
    → IsScheduled k
    → k.env_sched_list ≢ []
    → (yield || is_spent (decrement k.count) || not (is_runnable k k.curenv)) ≡ true
    → Ensures (λ _ l. Picked (ticked k) l) (λ f l. ⊥) (schedule yield k)
unfolding schedule
schedule-Picked k yield s ne test =
    let test' : (yield || is_spent (decrement k.count) || not (is_runnable (ticked k) k.curenv))
        ≡ true =
      rw (is_runnable-ticked k k.curenv) test in
    rw test' (pick-Picked (ticked k) (ticked-IsScheduled k s) ne)

-- Without a yield and inside the slice, `schedule` lets the runnable current environment go on:
-- it has run once more, the counter is one lower, the list is the same and still holds exactly
-- the runnable environments.
pub schedule_keeps :
    (k : Kernel) (c : ℕ)
    → IsScheduled k
    → k.curenv ≡ some c
    → (k.envs c).env_status ≡ status_runnable
    → is_spent (decrement k.count) ≡ false
    → Ensures (λ _ l. Runs (ticked k) c l × IsScheduled l) (λ f l. ⊥) (schedule false k)
unfolding schedule
schedule_keeps k c s cur run more =
    let test : is_runnable (ticked k) k.curenv ≡ true = is_runnable-current k c cur run in
    rw (more, test) (go_on-Runs (ticked k) k.curenv c cur run (ticked-IsScheduled k s))

is_runnable-none_scheduled :
    (k : Kernel) (o : Option ℕ) → IsScheduled k → k.env_sched_list ≡ [] → is_runnable k o ≡ false
unfolding is_runnable
is_runnable-none_scheduled k none s empty = refl
is_runnable-none_scheduled k (some c) s empty = sym (s.exact c) ∙ ap (λ (l : List ℕ). has c l) empty

rotated-none_scheduled :
    (k : Kernel) (o : Option ℕ) → IsScheduled k → k.env_sched_list ≡ [] → rotated k o ≡ []
unfolding rotated
rotated-none_scheduled k none s empty = empty
rotated-none_scheduled k (some c) s empty = rw (is_runnable-none_scheduled k (some c) s empty) empty

-- If the list holds exactly the runnable environments and is empty, `schedule` panics, with a
-- yield or without.
pub schedule_panics :
    (k : Kernel) (yield : Bool) → IsScheduled k → k.env_sched_list ≡ [] → schedule yield k ≡ panic
unfolding schedule pick run_head
schedule_panics k yield s empty =
    let test : (yield || is_spent (decrement k.count) || not (is_runnable (ticked k) k.curenv))
        ≡ true =
      rw (is_runnable-none_scheduled (ticked k) k.curenv (ticked-IsScheduled k s) empty)
        (ground arith) in
    rw (
      test,
      pick,
      requeue-rotated (ticked k) k.curenv (ticked-IsScheduled k s),
      rotated-none_scheduled (ticked k) k.curenv (ticked-IsScheduled k s) empty,
      run_head,
    )
