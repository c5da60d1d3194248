-- ===== src/Fs/Paths/Walking.antt =====
-- `walk_path` of fs/fs.c looks up the elements of the path one after the other.
use spring_os.Base.{
  ℕ, zero, suc, ◌≤◌, ◌≡◌, refl, ap, sym, ◌∙◌, fun_ext, inl, inr, Bool, true, false, Option, none,
  some, List, [], ◌∷◌, length, ◌==◌, if◌then◌else◌, arith, Bool-cases,
}
use spring_os.Base.Run.{Cmd, pure}
use spring_os.Fs.{Disk}
use spring_os.Fs.Files.{Slot}
use spring_os.Fs.Paths.{
  skip_slash, split_element, Walk, found, walk_element, is_empty, walk, root, walk_path,
}

-- The pieces of a path between its slashes, empty ones too; the elements are those that are not empty.
unfoldable pub add_front : ℕ → List (List ℕ) → List (List ℕ)
add_front c [] = (c ∷ []) ∷ []
add_front c (p ∷ ps) = (c ∷ p) ∷ ps

unfoldable pub pieces : List ℕ → List (List ℕ)
pieces [] = [] ∷ []
pieces (c ∷ path) = if c == 47 then [] ∷ pieces path else add_front c (pieces path)

unfoldable pub drop_empty : List (List ℕ) → List (List ℕ)
drop_empty [] = []
drop_empty ([] ∷ ps) = drop_empty ps
drop_empty ((c ∷ p) ∷ ps) = (c ∷ p) ∷ drop_empty ps

unfoldable pub elements : List ℕ → List (List ℕ)
elements path = drop_empty (pieces path)

-- The elements looked up in turn, each in the file that the last one gave.
unfoldable pub resolve : Slot → Option Slot → List (List ℕ) → Cmd Disk Walk
resolve file dir [] = pure (found dir file)
resolve file dir (name ∷ names) =
    walk_element (λ next. resolve next (some file) names) file name (is_empty names)

behind : List ℕ → List (List ℕ)
behind [] = []
behind (c ∷ path) = pieces path

pieces-split_element :
    (path : List ℕ) → pieces path ≡ (split_element path).0 ∷ behind (split_element path).1
unfolding pieces split_element behind add_front
pieces-split_element [] = refl
pieces-split_element (c ∷ path) = ground (arith, pieces-split_element path)

-- What `split_element` leaves is empty or starts with a slash.
elements-behind :
    (path : List ℕ) → drop_empty (behind (split_element path).1) ≡ elements (split_element path).1
unfolding elements pieces split_element behind drop_empty
elements-behind [] = refl
elements-behind (c ∷ path) = elim (Bool-cases (c == 47)) [
  | inl slash ↦ rw slash (rw slash refl)
  | inr other ↦ rw other (elements-behind path)
]

elements-skip_slash : (path : List ℕ) → elements (skip_slash path) ≡ elements path
unfolding elements pieces skip_slash drop_empty
elements-skip_slash [] = refl
elements-skip_slash (c ∷ path) = elim (Bool-cases (c == 47)) [
  | inl slash ↦ rw slash (elements-skip_slash path)
  | inr other ↦ rw other (rw other refl)
]

-- A path that does not start with a slash.
starts : List ℕ → Bool
starts [] = true
starts (c ∷ path) = if c == 47 then false else true

starts-skip_slash : (path : List ℕ) → starts (skip_slash path) ≡ true
unfolding starts skip_slash
starts-skip_slash [] = refl
starts-skip_slash (c ∷ path) = ground (arith, starts-skip_slash path)

other_than_slash : (c : ℕ) (path : List ℕ) → starts (c ∷ path) ≡ true → (c == 47) ≡ false
unfolding starts
other_than_slash c path s = ground arith

split_element-cons :
    (c : ℕ) (path : List ℕ)
    → starts (c ∷ path) ≡ true
    → ((split_element (c ∷ path)).0 ≡ c ∷ (split_element path).0)
      × ((split_element (c ∷ path)).1 ≡ (split_element path).1)
unfolding split_element
split_element-cons c path s = let other = other_than_slash c path s in (rw other, rw other)

elements-cons :
    (c : ℕ) (path : List ℕ)
    → starts (c ∷ path) ≡ true
    → elements (c ∷ path)
      ≡ (split_element (c ∷ path)).0 ∷ elements (skip_slash (split_element (c ∷ path)).1)
unfolding drop_empty elements
elements-cons c path s =
    let first = split_element-cons c path s in
    ap drop_empty (pieces-split_element (c ∷ path))
    ∙ rw (first.0) (
        ap (λ ps. (c ∷ (split_element path).0) ∷ ps)
          (elements-behind (c ∷ path) ∙ sym (elements-skip_slash (split_element (c ∷ path)).1)))

is_empty-elements : (path : List ℕ) → starts path ≡ true → is_empty (elements path) ≡ is_empty path
unfolding elements pieces drop_empty
is_empty-elements [] s = refl
is_empty-elements (c ∷ path) s = rw (elements-cons c path s) refl

length-skip_slash : (path : List ℕ) → length (skip_slash path) ≤ length path
unfolding skip_slash
length-skip_slash [] = omega arith
length-skip_slash (c ∷ path) = ground (arith, length-skip_slash path)

length-split_element : (path : List ℕ) → length (split_element path).1 ≤ length path
unfolding split_element
length-split_element [] = omega arith
length-split_element (c ∷ path) = ground (arith, length-split_element path)

shorter :
    (c : ℕ) (path : List ℕ)
    → starts (c ∷ path) ≡ true
    → length (skip_slash (split_element (c ∷ path)).1) ≤ length path
shorter c path s =
    rw ((split_element-cons c path s).1)
      (omega (arith, length-skip_slash (split_element path).1, length-split_element path))

elements-nil : elements [] ≡ []
unfolding elements pieces drop_empty
elements-nil = refl

walk-resolve :
    (rounds : ℕ) (file : Slot) (dir : Option Slot) (path : List ℕ)
    → starts path ≡ true
    → length path ≤ rounds
    → walk rounds file dir path ≡ resolve file dir (elements path)
unfolding walk resolve
walk-resolve zero file dir [] s le = rw elements-nil refl
walk-resolve (suc rounds) file dir [] s le = rw elements-nil refl
walk-resolve zero file dir (c ∷ path) s le = absurd (omega arith)
walk-resolve (suc rounds) file dir (c ∷ path) s le =
    let name : List ℕ = (split_element (c ∷ path)).0 in
    let rest : List ℕ = skip_slash (split_element (c ∷ path)).1 in
    let go : (λ next. walk rounds next (some file) rest)
        ≡ (λ next. resolve next (some file) (elements rest)) =
      fun_ext (λ next.
        walk-resolve rounds next (some file) rest (starts-skip_slash (split_element (c ∷ path)).1)
          (omega (arith, shorter c path s))) in
    ap (λ (step : Slot → Cmd Disk Walk). walk_element step file name (is_empty rest)) go
    ∙ ap (walk_element (λ next. resolve next (some file) (elements rest)) file name)
        (sym (is_empty-elements rest (starts-skip_slash (split_element (c ∷ path)).1)))
    ∙ rw (elements-cons c path s) refl

-- For every path and disk, `walk_path` does exactly what looking up the elements of the path in
-- turn does, each in the file that the last one gave and the first in the root directory; the
-- elements are the parts between slashes that are not empty.
pub walk_path-resolve : (path : List ℕ) → walk_path path ≡ resolve root none (elements path)
unfolding walk_path
walk_path-resolve path =
    walk-resolve (length (skip_slash path)) root none (skip_slash path) (starts-skip_slash path)
      (omega arith)
    ∙ ap (resolve root none) (elements-skip_slash path)
