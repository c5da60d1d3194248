-- ===== src/Queue.antt =====
-- The tail queues of include/queue.h with their pointers, as `env_sched_list` uses them. An element is
-- known by its index; the address of a pointer is a number too: 0 is `&head->tqh_first`, and the
-- successor of an element's index is `&elm->field.tqe_next`.
pub mod Linked
pub mod Refinement
pub mod Examples
use spring_os.Base.{ℕ, zero, suc, Option, none, some, update}

abbrev pub Place : Type 0
Place = ℕ

abbrev pub first_place : Place
first_place = 0

abbrev pub next_place : ℕ → Place
next_place e = suc e

-- A `TAILQ_HEAD` and the links of all elements: `pointer` holds `tqh_first` and the `tqe_next`s.
pub record TailQueue : Type 0 where
  pub pointer : Place → Option ℕ
  pub tqh_last : Place
  pub tqe_prev : ℕ → Place

-- `*place = value`
abbrev pub assign : Place → Option ℕ → TailQueue → TailQueue
assign place v q = record q { pointer = update q.pointer place v }

abbrev pub set_prev : ℕ → Place → TailQueue → TailQueue
set_prev e place q = record q { tqe_prev = update q.tqe_prev e place }

unfoldable pub init : TailQueue → TailQueue
init q = record (assign first_place none q) { tqh_last = first_place }

-- The element behind gets a new back pointer, or the head a new last place.
unfoldable pub set_back : Option ℕ → Place → TailQueue → TailQueue
set_back none place q = record q { tqh_last = place }
set_back (some n) place q = set_prev n place q

unfoldable pub insert_head : ℕ → TailQueue → TailQueue
insert_head e q =
    let q1 = assign (next_place e) (q.pointer first_place) q in
    let q2 = set_back (q.pointer first_place) (next_place e) q1 in
    set_prev e first_place (assign first_place (some e) q2)

unfoldable pub insert_tail : ℕ → TailQueue → TailQueue
insert_tail e q =
    let q1 = assign (next_place e) none q in
    let q2 = set_prev e q1.tqh_last q1 in
    record (assign q2.tqh_last (some e) q2) { tqh_last = next_place e }

unfoldable pub insert_after : ℕ → ℕ → TailQueue → TailQueue
insert_after listelm e q =
    let q1 = assign (next_place e) (q.pointer (next_place listelm)) q in
    let q2 = set_back (q.pointer (next_place listelm)) (next_place e) q1 in
    set_prev e (next_place listelm) (assign (next_place listelm) (some e) q2)

unfoldable pub insert_before : ℕ → ℕ → TailQueue → TailQueue
insert_before listelm e q =
    let q1 = set_prev e (q.tqe_prev listelm) q in
    let q2 = assign (next_place e) (some listelm) q1 in
    set_prev listelm (next_place e) (assign (q2.tqe_prev listelm) (some e) q2)

unfoldable pub remove : ℕ → TailQueue → TailQueue
remove e q =
    let q1 = set_back (q.pointer (next_place e)) (q.tqe_prev e) q in
    assign (q1.tqe_prev e) (q1.pointer (next_place e)) q1
