-- ===== src/Strings/Compare.antt =====
-- `strlen` and `strcmp` of lib/string.c on the texts that memory holds.
use spring_os.Base.{
  ℕ, zero, suc, ◌<◌, ◌≡◌, ◌≢◌, ◌↔◌, refl, ap, ◌∙◌, some, List, [], ◌∷◌, ◌==◌, if◌then◌else◌, arith,
  length,
}
use spring_os.Strings.{Memory, after, Order, below, same, above, order, strlen, strcmp}

-- Memory holds a text at an address, up to its end, a zero.
unfoldable pub Stored : Memory → ℕ → List ℕ → Type 0
Stored m p [] = m p ≡ 0
Stored m p (x ∷ xs) = (m p ≡ x) × (x ≢ 0) × Stored m (after p 1) xs

-- The order of texts by their first difference; a text comes before its continuations.
unfoldable pub compare_texts : List ℕ → List ℕ → Order
compare_texts [] [] = same
compare_texts [] (y ∷ ys) = below
compare_texts (x ∷ xs) [] = above
compare_texts (x ∷ xs) (y ∷ ys) =
    let rest = compare_texts xs ys in if x == y then rest else order x y

order-ne : (x y : ℕ) → x ≢ y → order x y ≢ same
unfolding order
order-ne x y ne = ground (arith, ne)

compare_texts_iff : (xs ys : List ℕ) → (compare_texts xs ys ≡ same) ↔ (xs ≡ ys)
unfolding compare_texts
compare_texts_iff [] [] = (λ h. refl, λ h. refl)
compare_texts_iff [] (y ∷ ys) = (λ h. cc, λ h. cc)
compare_texts_iff (x ∷ xs) [] = (λ h. cc, λ h. cc)
compare_texts_iff (x ∷ xs) (y ∷ ys) =
    let (equal, back) = compare_texts_iff xs ys in
    (λ h. ground (arith, h, equal, order-ne x y), λ h. ground (arith, h, back))

strcmp-compare_texts :
    (rounds : ℕ) (m : Memory) (p q : ℕ) (xs ys : List ℕ)
    → Stored m p xs
    → Stored m q ys
    → length xs < rounds
    → strcmp rounds m p q ≡ some (compare_texts xs ys)
unfolding strcmp Stored compare_texts order
strcmp-compare_texts zero m p q xs ys s t lt = absurd (omega (arith, lt))
strcmp-compare_texts (suc rounds) m p q [] [] s t lt = ground (arith, s, t)
strcmp-compare_texts (suc rounds) m p q [] (y ∷ ys) s (t, ne, _) lt = ground (arith, s, t, ne)
strcmp-compare_texts (suc rounds) m p q (x ∷ xs) [] (s, ne, _) t lt = ground (arith, s, t, ne)
strcmp-compare_texts (suc rounds) m p q (x ∷ xs) (y ∷ ys) (s, ne, s') (t, ne', t') lt =
    let rest =
      strcmp-compare_texts rounds m (after p 1) (after q 1) xs ys s' t' (omega (arith, lt)) in
    ground (arith, s, t, ne, rest)

strlen-length :
    (rounds : ℕ) (m : Memory) (p : ℕ) (xs : List ℕ)
    → Stored m p xs
    → length xs < rounds
    → strlen rounds m p ≡ some (length xs)
unfolding strlen Stored
strlen-length zero m p xs s lt = absurd (omega (arith, lt))
strlen-length (suc rounds) m p [] s lt = ground (arith, s)
strlen-length (suc rounds) m p (x ∷ xs) (s, ne, s') lt =
    let rest = strlen-length rounds m (after p 1) xs s' (omega (arith, lt)) in
    ground (arith, s, ne, rest)

-- For two texts in memory, each with its zero at the end, `strlen` returns the length of the
-- first, and `strcmp` returns their order by the first difference, a text before its
-- continuations, and 0 exactly if they are equal, both with more rounds than the first has
-- characters
pub strcmp-order :
    (rounds : ℕ) (m : Memory) (p q : ℕ) (xs ys : List ℕ)
    → Stored m p xs
    → Stored m q ys
    → length xs < rounds
    → (strlen rounds m p ≡ some (length xs))
      × (strcmp rounds m p q ≡ some (compare_texts xs ys))
      × ((strcmp rounds m p q ≡ some same) ↔ (xs ≡ ys))
strcmp-order rounds m p q xs ys s t lt =
    let result = strcmp-compare_texts rounds m p q xs ys s t lt in
    let (equal, back) = compare_texts_iff xs ys in
    (
      strlen-length rounds m p xs s lt,
      result,
      (λ h. equal (ground (arith, result, h)), λ h. result ∙ ap some (back h)),
    )
