-- ===== src/Queue/Linked.antt =====
-- The sequence that the pointers of a tail queue (include/queue.h) stand for, and each macro as a
-- change of the sequence.
use spring_os.Base.{
  ℕ, zero, suc, ◌≡◌, ◌≢◌, refl, sym, subst, ◌∙◌, ap, inl, inr, true, false, none, some, List, [],
  ◌∷◌, ◌++◌, ◌==◌, has, erase, Distinct, arith, Bool-cases,
}
use spring_os.Queue.{
  Place, first_place, next_place, TailQueue, assign, set_prev, set_back, insert_head, insert_tail,
  remove,
}

-- From `place` the pointers lead through the elements to the last place, and back.
abbrev pub Linked : TailQueue → Place → List ℕ → Type 0
Linked q place [] = (q.pointer place ≡ none) × (q.tqh_last ≡ place)
Linked q place (e ∷ es) =
    (q.pointer place ≡ some e) × (q.tqe_prev e ≡ place) × Linked q (next_place e) es

-- The place is not in an element of the list.
abbrev pub Outside : Place → List ℕ → Type 0
Outside zero es = Unit
Outside (suc e) es = has e es ≡ false

pub record IsQueue (q : TailQueue) (es : List ℕ) : Type 0 where
  pub linked : Linked q first_place es
  pub distinct : Distinct es

-- Where two queues agree, the same elements are linked.
frame :
    (q r : TailQueue) (place : Place) (es : List ℕ)
    → r.pointer place ≡ q.pointer place
    → r.tqh_last ≡ q.tqh_last
    → ((e : ℕ) → has e es ≡ true → r.tqe_prev e ≡ q.tqe_prev e)
    → ((e : ℕ) → has e es ≡ true → r.pointer (suc e) ≡ q.pointer (suc e))
    → Linked q place es
    → Linked r place es
frame q r place [] d l p n (a, b) = (d ∙ a, l ∙ b)
frame q r place (e ∷ es) d l p n (a, b, c) = (
  d ∙ a,
  p e (ground arith) ∙ b,
  frame q r (next_place e) es (n e (ground arith)) l (λ x h. p x (ground arith))
      (λ x h. n x (ground arith)) c,
)

last-none :
    (q : TailQueue) (place : Place) (es : List ℕ) → Linked q place es → q.pointer q.tqh_last ≡ none
last-none q place [] (a, b) = ap q.pointer b ∙ a
last-none q place (e ∷ es) (a, b, c) = last-none q (next_place e) es c

pointer-prev :
    (q : TailQueue) (place : Place) (es : List ℕ) (e : ℕ)
    → Linked q place es
    → has e es ≡ true
    → q.pointer (q.tqe_prev e) ≡ some e
pointer-prev q place [] e l h = cc
pointer-prev q place (x ∷ es) e (a, b, c) h = elim (Bool-cases (e == x)) [
  | inl same ↦ let z : e ≡ x = ground arith in rw (z, b) a
  | inr other ↦ pointer-prev q (next_place x) es e c (ground arith)
]

pub insert_tail-Linked :
    (q : TailQueue) (e : ℕ) (place : Place) (es : List ℕ)
    → Linked q place es
    → has e es ≡ false
    → place ≢ suc e
    → Linked (insert_tail e q) place (es ++ e ∷ [])
unfolding insert_tail
insert_tail-Linked q e place [] (a, b) out apart =
    (ground arith, ground arith, (ground arith, refl))
insert_tail-Linked q e place (x ∷ es) (a, b, c) out apart =
    let last = last-none q (next_place x) es c in
    (
      ground (arith, ap q.pointer),
      ground arith,
      insert_tail-Linked q e (next_place x) es c (ground arith) (λ z. ground arith),
    )

-- Where the queue is not empty, `insert_head` puts the element between the head and the first one.
insert_head-some :
    (q : TailQueue) (e x : ℕ)
    → q.pointer first_place ≡ some x
    → insert_head e q
      ≡ set_prev e first_place (
          assign first_place
            (some e)
            (set_prev x (next_place e) (assign (next_place e) (some x) q)))
unfolding insert_head set_back
insert_head-some q e x h = rw h refl

insert_head-none :
    (q : TailQueue) (e : ℕ)
    → q.pointer first_place ≡ none
    → insert_head e q
      ≡ set_prev e first_place (
          assign first_place
            (some e)
            (record (assign (next_place e) none q) { tqh_last = next_place e }))
unfolding insert_head set_back
insert_head-none q e h = rw h refl

pub insert_head-Linked :
    (q : TailQueue) (e : ℕ) (es : List ℕ)
    → Linked q first_place es
    → has e es ≡ false
    → Distinct es
    → Linked (insert_head e q) first_place (e ∷ es)
insert_head-Linked q e [] (a, b) out d =
    rw (insert_head-none q e a) (ground arith, ground arith, (ground arith, refl))
insert_head-Linked q e (x ∷ es) (a, b, c) out d =
    subst (λ r. Linked r first_place (e ∷ x ∷ es)) (sym (insert_head-some q e x a))
      (
        ground arith,
        ground arith,
        (
          ground arith,
          ground arith,
          frame q
              (set_prev e first_place (
                assign first_place (some e)
                  (set_prev x (next_place e) (assign (next_place e) (some x) q))))
              (next_place x) es (ground arith) refl (λ y h. ground arith) (λ y h. ground arith) c,
        ),
      )

remove-none :
    (q : TailQueue) (e : ℕ)
    → q.pointer (next_place e) ≡ none
    → remove e q ≡ record (assign (q.tqe_prev e) none q) { tqh_last = q.tqe_prev e }
unfolding remove set_back
remove-none q e h = rw (h, h) refl

remove-some :
    (q : TailQueue) (e n : ℕ)
    → q.pointer (next_place e) ≡ some n
    → n ≢ e
    → remove e q ≡ assign (q.tqe_prev e) (some n) (set_prev n (q.tqe_prev e) q)
unfolding remove set_back
remove-some q e n h ne = let other : (e == n) ≡ false = ground arith in rw (h, h, other) refl

-- Behind an element of the list is nothing, or another element of the list.
data Behind (q : TailQueue) (e : ℕ) (es : List ℕ) : Type 0 where
  last : q.pointer (next_place e) ≡ none → Behind q e es
  next : (n : ℕ) → q.pointer (next_place e) ≡ some n → n ≢ e → has n es ≡ true → Behind q e es

Behind-cons : (q : TailQueue) (e x : ℕ) (es : List ℕ) → Behind q e es → Behind q e (x ∷ es)
Behind-cons q e x es (last h) = last h
Behind-cons q e x es (next n h ne i) = next n h ne (ground arith)

second-Behind :
    (q : TailQueue) (x : ℕ) (es : List ℕ)
    → Linked q (next_place x) es
    → Distinct (x ∷ es)
    → Behind q x (x ∷ es)
second-Behind q x [] (a, b) d = last a
second-Behind q x (y ∷ es) (a, b, c) d = next y a (λ z. ground arith) (ground arith)

linked-Behind :
    (q : TailQueue) (e : ℕ) (place : Place) (es : List ℕ)
    → Linked q place es
    → Distinct es
    → has e es ≡ true
    → Behind q e es
linked-Behind q e place [] l d i = cc
linked-Behind q e place (x ∷ es) (a, b, c) d i = elim (Bool-cases (e == x)) [
  | inl same ↦ subst (λ y. Behind q y (x ∷ es)) (ground arith) (second-Behind q x es c d)
  | inr other ↦ Behind-cons q e x es (linked-Behind q e (next_place x) es c d.1 (ground arith))
]

-- The place that points to an element is the first one, or in an element of the list.
data Before (q : TailQueue) (e : ℕ) (place : Place) (es : List ℕ) : Type 0 where
  start : q.tqe_prev e ≡ place → Before q e place es
  inside : (p : ℕ) → q.tqe_prev e ≡ suc p → has p es ≡ true → Before q e place es

Before-cons :
    (q : TailQueue) (e x : ℕ) (place : Place) (es : List ℕ)
    → Before q e (next_place x) es
    → Before q e place (x ∷ es)
Before-cons q e x place es (start h) = inside x h (ground arith)
Before-cons q e x place es (inside p h i) = inside p h (ground arith)

linked-Before :
    (q : TailQueue) (e : ℕ) (place : Place) (es : List ℕ)
    → Linked q place es
    → has e es ≡ true
    → Before q e place es
linked-Before q e place [] l i = cc
linked-Before q e place (x ∷ es) (a, b, c) i = elim (Bool-cases (e == x)) [
  | inl same ↦ let z : e ≡ x = ground arith in start (ap q.tqe_prev z ∙ b)
  | inr other ↦ Before-cons q e x place es (linked-Before q e (next_place x) es c (ground arith))
]

Outside-apart :
    (place : Place) (es : List ℕ) (p : ℕ) → Outside place es → has p es ≡ true → place ≢ suc p
Outside-apart zero es p o i h = ground arith
Outside-apart (suc x) es p o i h = ground arith

-- Behind the first element of the list, the element's pointers are not those of the place.
prev-apart :
    (q : TailQueue) (e : ℕ) (place : Place) (x : ℕ) (es : List ℕ)
    → Linked q (next_place x) es
    → has e es ≡ true
    → Outside place (x ∷ es)
    → q.tqe_prev e ≢ place
prev-apart q e place x es l i o h = elim (linked-Before q e (next_place x) es l i) [
  | start j ↦ Outside-apart place (x ∷ es) x o (ground arith) (sym h ∙ j)
  | inside p j k ↦ Outside-apart place (x ∷ es) p o (ground arith) (sym h ∙ j)
]

remove_first-Linked :
    (q : TailQueue) (place : Place) (x : ℕ) (es : List ℕ)
    → Linked q place (x ∷ es)
    → Distinct (x ∷ es)
    → Outside place (x ∷ es)
    → Linked (remove x q) place es
remove_first-Linked q place x [] (a, b, (c, f)) d o =
    rw (remove-none q x c) (rw b (ground arith), b)
remove_first-Linked q place x (y ∷ es) (a, b, (c, f, g)) d o =
    let apart = Outside-apart place (x ∷ y ∷ es) in
    subst (λ r. Linked r place (y ∷ es)) (sym (remove-some q x y c (ground arith)))
      (
        rw b (ground arith),
        ground arith,
        frame q (assign (q.tqe_prev x) (some y) (set_prev y (q.tqe_prev x) q)) (next_place y) es
            (let z = apart y o (ground arith) in rw b (ground arith)) refl (λ n h. ground arith)
            (λ n h. let z = apart n o (ground arith) in rw b (ground arith)) g,
      )

-- What `remove` leaves in front of the element: the place of another element in front.
abbrev Kept : TailQueue → TailQueue → Place → ℕ → Type 0
Kept q r place x = (r.pointer place ≡ q.pointer place) × (r.tqe_prev x ≡ q.tqe_prev x)

remove-Kept :
    (q : TailQueue) (e : ℕ) (place : Place) (x : ℕ) (es : List ℕ)
    → Linked q place (x ∷ es)
    → Distinct (x ∷ es)
    → Outside place (x ∷ es)
    → has e es ≡ true
    → Kept q (remove e q) place x
remove-Kept q e place x es (a, b, c) d o i =
    let apart = prev-apart q e place x es c i o in
    elim (linked-Behind q e (next_place x) es c d.1 i) [
      | last h ↦ subst (λ r. Kept q r place x) (sym (remove-none q e h)) (ground arith, refl)
      | next n h ne j ↦
          subst (λ r. Kept q r place x) (sym (remove-some q e n h ne)) (ground arith, ground arith)
    ]

pub remove-Linked :
    (q : TailQueue) (e : ℕ) (place : Place) (es : List ℕ)
    → Linked q place es
    → Distinct es
    → Outside place es
    → has e es ≡ true
    → Linked (remove e q) place (erase e es)
remove-Linked q e place [] l d o i = cc
remove-Linked q e place (x ∷ es) (a, b, c) d o i = elim (Bool-cases (e == x)) [
  | inl same ↦
      let z : x ≡ e = ground arith in
      rw same (
        subst (λ y. Linked (remove y q) place es) z
          (remove_first-Linked q place x es (a, b, c) d o))
  | inr other ↦
      let j : has e es ≡ true = ground arith in
      let k = remove-Kept q e place x es (a, b, c) d o j in
      rw other (k.0 ∙ a, k.1 ∙ b, remove-Linked q e (next_place x) es c d.1 d.0 j)
]
