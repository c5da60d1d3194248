-- ===== src/Strings/Examples.antt =====
-- The theorems about lib/string.c at a memory of two texts.
use spring_os.Base.{
  ℕ, ◌+◌, ◌-◌, ◌≡◌, ◌↔◌, refl, some, [], ◌∷◌, List, ◌||◌, ◌<◌, ◌&&◌, leb, ltb, ◌==◌, if◌then◌else◌,
  arith,
}
use spring_os.Base.{◌%◌}
use spring_os.Strings.Filling.{memset-filled}
use spring_os.Strings.{memset, Memory, same, memcpy, strlen, strcmp, after}
use spring_os.Strings.Moves.{forward, IsApart}
use spring_os.Strings.Copying.{memcpy-forward}
use spring_os.Strings.Compare.{Stored, compare_texts, strcmp-order}

-- "ls" at 16 and "lsx" at 32, and zeros.
abbrev memory : Memory
memory a =
    if (a == 16) || (a == 32)
    then 108
    else if (a == 17) || (a == 33)
    then 115
    else if a == 34
    then 120
    else 0

memory_small : (a : ℕ) → memory a < 256
memory_small a = ground arith

memcpy-forward_example :
    (memcpy memory 49 33 6 ≡ forward 6 memory 49 33)
    × (IsApart 49 33 6
        → (a : ℕ)
        → memcpy memory 49 33 6 a
          ≡ (if leb 49 a && ltb a (49 + 6) then memory (33 + (a - 49)) else memory a))
memcpy-forward_example = memcpy-forward memory 49 33 6 memory_small (omega arith) (omega arith)

short : Stored memory 16 (108 ∷ 115 ∷ [])
unfolding Stored after
short = (refl, λ h. omega (arith, h), (refl, λ h. omega (arith, h), refl))

long : Stored memory 32 (108 ∷ 115 ∷ 120 ∷ [])
unfolding Stored after
long = (
  refl,
  λ h. omega (arith, h),
  (refl, λ h. omega (arith, h), (refl, λ h. omega (arith, h), refl)),
)

strcmp-order_example :
    (strlen 3 memory 16 ≡ some 2)
    × (strcmp 3 memory 16 32 ≡ some (compare_texts (108 ∷ 115 ∷ []) (108 ∷ 115 ∷ 120 ∷ [])))
    × ((strcmp 3 memory 16 32 ≡ some same)
        ↔ (◌≡◌ {A = List ℕ} (108 ∷ 115 ∷ []) (108 ∷ 115 ∷ 120 ∷ [])))
strcmp-order_example =
    strcmp-order 3 memory 16 32 (108 ∷ 115 ∷ []) (108 ∷ 115 ∷ 120 ∷ []) short long (omega arith)

memset-filled_example :
    memset memory 33 0x161 6 38 ≡ (if leb 33 38 && ltb 38 (33 + 6) then 0x161 % 256 else memory 38)
memset-filled_example = memset-filled memory 33 0x161 6 38 (omega arith)
