-- ===== src/Print/Reversal.antt =====
-- The reversal of the buffer in `print_num` of lib/print.c: swapping the ends until they meet turns
-- the part between them around.
use spring_os.Base.{
  append-nil, ℕ, zero, suc, ◌+◌, ◌-◌, ◌≤◌, ◌<◌, ◌≡◌, refl, ap, sym, ◌∙◌, true, false, ◌&&◌, List,
  [], ◌∷◌, ◌++◌, ltb, leb, if◌then◌else◌, length, arith, Bool-cases, inl, inr,
}
use spring_os.Print.{padding, swap_ends, buffer, flush}

-- A list from its end to its start.
unfoldable pub backwards : List ℕ → List ℕ
backwards [] = []
backwards (x ∷ xs) = backwards xs ++ x ∷ []

-- Swapping the ends until they meet turns the part between them around.
swap_ends_lem :
    (rounds begin end : ℕ) (buf : ℕ → ℕ) (i : ℕ)
    → end ≤ begin + rounds
    → swap_ends rounds begin end buf i
      ≡ (if leb begin i && leb i end then buf (begin + end - i) else buf i)
unfolding swap_ends
swap_ends_lem zero begin end buf i h = ground arith
swap_ends_lem (suc rounds) begin end buf i h = elim (Bool-cases (ltb begin end)) [
  | inl apart ↦
      rw (apart, swap_ends_lem rounds (begin + 1) (end - 1) _ i (omega arith)) (ground arith)
  | inr met ↦ rw met (ground arith)
]

flush_ext : (n : ℕ) (f g : ℕ → ℕ) → ((i : ℕ) → i < n → f i ≡ g i) → flush n f ≡ flush n g
unfolding flush
flush_ext zero f g e = refl
flush_ext (suc n) f g e = rw (
  e 0 (omega arith),
  flush_ext n (λ i. f (suc i)) (λ i. g (suc i)) (λ i lt. e (suc i) (omega arith)),
)

flush-suc : (n : ℕ) (f : ℕ → ℕ) → flush (suc n) f ≡ flush n f ++ f n ∷ []
unfolding flush
flush-suc zero f = refl
flush-suc (suc n) f = rw (flush-suc n (λ i. f (suc i)))

flush-append : (m n : ℕ) (f : ℕ → ℕ) → flush (m + n) f ≡ flush m f ++ flush n (λ i. f (m + i))
unfolding flush
flush-append zero n f =
    let e : 0 + n ≡ n = omega arith in
    rw e (flush_ext n f (λ i. f (0 + i)) (λ i lt. let z : 0 + i ≡ i = omega arith in rw z refl))
flush-append (suc m) n f =
    let e : suc m + n ≡ suc (m + n) = omega arith in
    rw (e, flush-append m n (λ i. f (suc i)))
      (ap (λ l. f 0 ∷ (flush m (λ i. f (suc i)) ++ l))
        (flush_ext n (λ i. f (suc (m + i))) (λ i. f (suc m + i))
          (λ i lt. let z : suc (m + i) ≡ suc m + i = omega arith in rw z refl)))

buffer-append_left : (xs ys : List ℕ) (i : ℕ) → i < length xs → buffer (xs ++ ys) i ≡ buffer xs i
unfolding buffer
buffer-append_left [] ys i lt = absurd (omega arith)
buffer-append_left (x ∷ xs) ys zero lt = refl
buffer-append_left (x ∷ xs) ys (suc i) lt = buffer-append_left xs ys i (omega arith)

buffer-append_right : (xs ys : List ℕ) (i : ℕ) → buffer (xs ++ ys) (length xs + i) ≡ buffer ys i
unfolding buffer
buffer-append_right [] ys i = let z : 0 + i ≡ i = omega arith in rw z refl
buffer-append_right (x ∷ xs) ys i =
    let z : suc (length xs) + i ≡ suc (length xs + i) = omega arith in
    rw z (buffer-append_right xs ys i)

flush-buffer : (ys : List ℕ) → flush (length ys) (buffer ys) ≡ ys
unfolding flush buffer
flush-buffer [] = refl
flush-buffer (y ∷ ys) = ap (λ l. y ∷ l) (flush-buffer ys)

flush-backwards :
    (xs : List ℕ) → flush (length xs) (λ i. buffer xs (length xs - 1 - i)) ≡ backwards xs
unfolding backwards buffer flush
flush-backwards [] = refl
flush-backwards (x ∷ xs) =
    let f : ℕ → ℕ = λ i. buffer (x ∷ xs) (suc (length xs) - 1 - i) in
    let last : f (length xs) ≡ x =
      let z : suc (length xs) - 1 - length xs ≡ 0 = omega arith in rw z refl in
    let others : flush (length xs) f ≡ flush (length xs) (λ i. buffer xs (length xs - 1 - i)) =
      flush_ext (length xs) f (λ i. buffer xs (length xs - 1 - i))
        (λ i lt.
          let z : suc (length xs) - 1 - i ≡ suc (length xs - 1 - i) = omega arith in rw z refl) in
    flush-suc (length xs) f ∙ rw (last, others, flush-backwards xs) refl

-- What is flushed after the swaps: the part in front turned around, and the rest.
pub flush-swap_ends :
    (xs ys : List ℕ) (n : ℕ)
    → n ≡ length xs + length ys
    → 1 ≤ length xs
    → flush n (swap_ends n 0 (length xs - 1) (buffer (xs ++ ys))) ≡ backwards xs ++ ys
flush-swap_ends xs ys n size pos =
    let all : List ℕ = xs ++ ys in
    let turned = swap_ends n 0 (length xs - 1) (buffer all) in
    let at_front : (i : ℕ) → i < length xs → turned i ≡ buffer xs (length xs - 1 - i) = λ i lt.
      let inside : (leb 0 i && leb i (length xs - 1)) ≡ true = ground arith in
      let z : 0 + (length xs - 1) - i ≡ length xs - 1 - i = omega arith in
      rw (swap_ends_lem n 0 (length xs - 1) (buffer all) i (omega arith), inside, z)
        (buffer-append_left xs ys (length xs - 1 - i) (omega arith)) in
    let at_back : (i : ℕ) → i < length ys → turned (length xs + i) ≡ buffer ys i = λ i lt.
      let outside : (leb 0 (length xs + i) && leb (length xs + i) (length xs - 1)) ≡ false =
        ground arith in
      rw (swap_ends_lem n 0 (length xs - 1) (buffer all) (length xs + i) (omega arith), outside)
        (buffer-append_right xs ys i) in
    ap (λ k. flush k turned) size
    ∙ flush-append (length xs) (length ys) turned
    ∙ ap (λ l. l ++ flush (length ys) (λ i. turned (length xs + i)))
        (flush_ext (length xs) turned (λ i. buffer xs (length xs - 1 - i)) at_front
          ∙ flush-backwards xs)
    ∙ ap (λ l. backwards xs ++ l)
        (flush_ext (length ys) (λ i. turned (length xs + i)) (buffer ys) at_back ∙ flush-buffer ys)

append_assoc : (xs ys zs : List ℕ) → (xs ++ ys) ++ zs ≡ xs ++ (ys ++ zs)
append_assoc [] ys zs = refl
append_assoc (x ∷ xs) ys zs = ap (λ l. x ∷ l) (append_assoc xs ys zs)

pub backwards-append : (xs ys : List ℕ) → backwards (xs ++ ys) ≡ backwards ys ++ backwards xs
unfolding backwards
backwards-append [] ys = sym (append-nil (backwards ys))
backwards-append (x ∷ xs) ys =
    rw (backwards-append xs ys) (append_assoc (backwards ys) (backwards xs) (x ∷ []))

padding-snoc : (n c : ℕ) → padding n c ++ c ∷ [] ≡ c ∷ padding n c
unfolding padding
padding-snoc zero c = refl
padding-snoc (suc n) c = ap (λ l. c ∷ l) (padding-snoc n c)

pub backwards-padding : (n c : ℕ) → backwards (padding n c) ≡ padding n c
unfolding padding backwards
backwards-padding zero c = refl
backwards-padding (suc n) c = rw (backwards-padding n c) (padding-snoc n c)

pub length-padding : (n c : ℕ) → length (padding n c) ≡ n
unfolding padding
length-padding zero c = refl
length-padding (suc n) c = omega (arith, length-padding n c)
