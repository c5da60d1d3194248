-- ===== src/Queue/Refinement.antt =====
-- The list of runnable environments of the kernel is a tail queue (include/queue.h): the sequence that
-- the model of kern/sched.c and kern/syscall_all.c works on, and the pointers behind it.
use spring_os.Base.{
  ℕ, ◌≡◌, refl, true, not, List, [], ◌∷◌, ◌++◌, Bool, ◌&&◌, has, erase, Distinct-snoc,
  Distinct-erase, arith,
}
use spring_os.Base.Run.{Cmd, ok, pure, ◌>>◌, Ensures, returned}
use spring_os.Kernel.{Kernel, sched_insert_tail, sched_insert_head, sched_remove}
use spring_os.Queue.{TailQueue, init, insert_head, insert_tail, remove}
use spring_os.Queue.Linked.{IsQueue, insert_head-Linked, insert_tail-Linked, remove-Linked}

-- The changes of the list by the kernel.
pub data Change : Type 0 where
  at_tail : ℕ → Change
  at_head : ℕ → Change
  taken_out : ℕ → Change

-- On the sequence of the kernel's state.
unfoldable pub schedule_change : Change → Cmd Kernel (Unit {0})
schedule_change (at_tail e) = sched_insert_tail e
schedule_change (at_head e) = sched_insert_head e
schedule_change (taken_out e) = sched_remove e

unfoldable pub schedule_changes : List Change → Cmd Kernel (Unit {0})
schedule_changes [] = pure tt
schedule_changes (c ∷ cs) = do schedule_change c; schedule_changes cs

-- On the pointers.
unfoldable pub relink : Change → TailQueue → TailQueue
relink (at_tail e) = insert_tail e
relink (at_head e) = insert_head e
relink (taken_out e) = remove e

unfoldable pub relink_all : List Change → TailQueue → TailQueue
relink_all [] q = q
relink_all (c ∷ cs) q = relink_all cs (relink c q)

-- Nothing is inserted that is in the list, and nothing removed that is not.
abbrev pub after : Change → List ℕ → List ℕ
after (at_tail e) es = es ++ e ∷ []
after (at_head e) es = e ∷ es
after (taken_out e) es = erase e es

abbrev pub allowed : Change → List ℕ → Bool
allowed (at_tail e) es = not (has e es)
allowed (at_head e) es = not (has e es)
allowed (taken_out e) es = has e es

abbrev pub all_allowed : List Change → List ℕ → Bool
all_allowed [] es = true
all_allowed (c ∷ cs) es = allowed c es && all_allowed cs (after c es)

pub init-IsQueue : (q : TailQueue) → IsQueue (init q) []
unfolding init
init-IsQueue q = record { linked = (refl, refl); distinct = tt }

pub relink-IsQueue :
    (c : Change) (q : TailQueue) (es : List ℕ)
    → IsQueue q es
    → allowed c es ≡ true
    → IsQueue (relink c q) (after c es)
unfolding relink
relink-IsQueue (at_tail e) q es i a = record {
  linked = insert_tail-Linked q e 0 es i.linked (ground arith) (omega arith);
  distinct = Distinct-snoc e es i.distinct (ground arith);
}
relink-IsQueue (at_head e) q es i a = record {
  linked = insert_head-Linked q e es i.linked (ground arith) i.distinct;
  distinct = (ground arith, i.distinct);
}
relink-IsQueue (taken_out e) q es i a = record {
  linked = remove-Linked q e 0 es i.linked i.distinct tt a;
  distinct = Distinct-erase e es i.distinct;
}

schedule_change-after :
    (c : Change) (k : Kernel)
    → allowed c k.env_sched_list ≡ true
    → schedule_change c k ≡ ok tt (record k { env_sched_list = after c k.env_sched_list })
unfolding schedule_change sched_insert_tail sched_insert_head sched_remove
schedule_change-after (at_tail e) k a = rw a refl
schedule_change-after (at_head e) k a = rw a refl
schedule_change-after (taken_out e) k a = rw a refl

-- If a tail queue links the environments of `env_sched_list` in their order, and no change
-- inserts an element that is in the list or removes one that is not, then the changes run on the
-- list of the kernel do not fault, and the macros run on the pointers in the same order give a
-- tail queue that links exactly the environments of the new list.
pub schedule_changes-relink_all :
    (cs : List Change) (k : Kernel) (q : TailQueue)
    → IsQueue q k.env_sched_list
    → all_allowed cs k.env_sched_list ≡ true
    → Ensures (λ _ l. IsQueue (relink_all cs q) l.env_sched_list) (λ _ _. ⊥) (schedule_changes cs k)
unfolding schedule_changes relink_all
schedule_changes-relink_all [] k q i a = returned i
schedule_changes-relink_all (c ∷ cs) k q i a =
    let here : allowed c k.env_sched_list ≡ true = ground arith in
    let there : all_allowed cs (after c k.env_sched_list) ≡ true = ground arith in
    rw (schedule_change-after c k here) (
      schedule_changes-relink_all cs (record k { env_sched_list = after c k.env_sched_list })
        (relink c q) (relink-IsQueue c q k.env_sched_list i here) there)
