-- ===== src/Queue/Examples.antt =====
-- The refinement of include/queue.h at a kernel with two runnable environments.
use spring_os.Base.{◌≡◌, refl, none, [], ◌∷◌, List}
use spring_os.Base.Run.{Ensures}
use spring_os.Kernel.Examples.{kernel}
use spring_os.Queue.{TailQueue, init}
use spring_os.Queue.Linked.{IsQueue}
use spring_os.Queue.Refinement.{
  Change, at_tail, at_head, taken_out, schedule_changes, relink_all, init-IsQueue, relink-IsQueue,
  relink, schedule_changes-relink_all,
}

abbrev blank : TailQueue
blank = record { pointer = λ p. none; tqh_last = 0; tqe_prev = λ e. 0 }

abbrev two : TailQueue
two = relink (at_tail 1) (relink (at_tail 0) (init blank))

two-IsQueue : IsQueue two (0 ∷ 1 ∷ [])
two-IsQueue =
    relink-IsQueue (at_tail 1) (relink (at_tail 0) (init blank)) (0 ∷ [])
      (relink-IsQueue (at_tail 0) (init blank) [] (init-IsQueue blank) refl) refl

-- The head goes to the tail, and a third environment comes to the front.
abbrev turn : List Change
turn = taken_out 0 ∷ at_tail 0 ∷ at_head 2 ∷ []

schedule_changes-relink_all_example :
    Ensures
      (λ _ l. IsQueue (relink_all turn two) l.env_sched_list)
      (λ _ _. ⊥)
      (schedule_changes turn kernel)
schedule_changes-relink_all_example = schedule_changes-relink_all turn kernel two two-IsQueue refl

relinked : (relink_all turn two).tqh_last ≡ 1
unfolding relink_all relink init spring_os.Queue.insert_tail spring_os.Queue.insert_head
    spring_os.Queue.remove spring_os.Queue.set_back
relinked = refl
