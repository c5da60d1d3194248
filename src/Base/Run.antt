-- ===== src/Base/Run.antt =====
-- The outcome of kernel and server code: a value, an error code, or a panic. An error keeps the
-- state, since the code does not undo what it did before a failing call.
use Prim.Native.Nat.{ℕ}
use mathlib.Core.Bool.{Bool, true, false}

-- The error codes; a function that returns -E_X returns `err x`.
pub data Error : Type 0 where
  unspecified bad_env inval no_mem no_sys no_free_env ipc_not_recv : Error
  no_disk max_open not_found bad_path file_exists not_exec : Error

-- The number of each code.
pub code : Error → ℕ
code unspecified = 1
code bad_env = 2
code inval = 3
code no_mem = 4
code no_sys = 5
code no_free_env = 6
code ipc_not_recv = 7
code no_disk = 8
code max_open = 9
code not_found = 10
code bad_path = 11
code file_exists = 12
code not_exec = 13

pub data Run (S A : Type 0) : Type 0 where
  ok : A → S → Run S A
  err : Error → S → Run S A
  panic : Run S A

abbrev pub Cmd : Type 0 → Type 0 → Type 0
Cmd S A = S → Run S A

module _ {S A : Type 0} where
  abbrev pub pure : A → Cmd S A
  pure a s = ok a s

  abbrev pub fail : Error → Cmd S A
  fail e s = err e s

  abbrev pub fault : Cmd S A
  fault s = panic

abbrev pub get : {S : Type 0} → Cmd S S
get s = ok s s

abbrev pub put : {S : Type 0} → S → Cmd S (Unit {0})
put t s = ok tt t

abbrev pub modify : {S : Type 0} → (S → S) → Cmd S (Unit {0})
modify f s = ok tt (f s)

-- `assert(b)`
abbrev pub check : {S : Type 0} → Bool → Cmd S (Unit {0})
check true s = ok tt s
check false s = panic

module _ {S A B : Type 0} where
  abbrev pub and_then : Run S A → (A → Cmd S B) → Run S B
  and_then (ok a s) k = k a s
  and_then (err e s) k = err e s
  and_then panic k = panic

  infixl 5 ◌>>=◌ ◌>>◌
  abbrev pub ◌>>=◌ : Cmd S A → (A → Cmd S B) → Cmd S B
  m >>= k = λ s. and_then (m s) k

  abbrev pub ◌>>◌ : Cmd S A → Cmd S B → Cmd S B
  m >> n = m >>= λ _. n

-- `panic_on` of a call: an error is a panic.
unfoldable pub panic_on : {S A : Type 0} → Run S A → Run S A
panic_on (ok a s) = ok a s
panic_on (err e s) = panic
panic_on panic = panic

-- A call whose error is not looked at.
unfoldable pub ignoring : {S A : Type 0} → Run S A → Run S (Unit {0})
ignoring (ok a s) = ok tt s
ignoring (err e s) = ok tt s
ignoring panic = panic

-- `if (b) m;`
unfoldable pub when : {S : Type 0} → Bool → Cmd S (Unit {0}) → Cmd S (Unit {0})
when true m = m
when false m = pure tt

-- Runs a command of a part of the state.
module _ {S T A : Type 0} where
  abbrev pub put_back : (T → S) → Run T A → Run S A
  put_back back (ok a t) = ok a (back t)
  put_back back (err e t) = err e (back t)
  put_back back panic = panic

-- The command does not panic; a value satisfies `Q` and an error `E`, each with the final state.
pub data Ensures {S A : Type 0} (Q : A → S → Type 0) (E : Error → S → Type 0)
    : Run S A → Type 0 where
  returned : {a : A} {s : S} → Q a s → Ensures Q E (ok a s)
  failed : {e : Error} {s : S} → E e s → Ensures Q E (err e s)

module _ {S A : Type 0} {Q : A → S → Type 0} {E : Error → S → Type 0} where
  pub Ensures-bind :
      {B : Type 0} {P : B → S → Type 0} {r : Run S A} {k : A → Cmd S B}
      → Ensures Q E r
      → ((a : A) (s : S) → Q a s → Ensures P E (k a s))
      → Ensures P E (and_then r k)
  Ensures-bind (returned q) next = next _ _ q
  Ensures-bind (failed e) next = failed e

  pub Ensures-mono :
      {P : A → S → Type 0} {F : Error → S → Type 0} {r : Run S A}
      → Ensures Q E r
      → ((a : A) (s : S) → Q a s → P a s)
      → ((e : Error) (s : S) → E e s → F e s)
      → Ensures P F r
  Ensures-mono (returned q) weaken weaken' = returned (weaken _ _ q)
  Ensures-mono (failed e) weaken weaken' = failed (weaken' _ _ e)

-- A value satisfies `Q` and an error `E`, each with the final state; the command may panic.
pub data Safe {S A : Type 0} (Q : A → S → Type 0) (E : S → Type 0) : Run S A → Type 0 where
  gives : {a : A} {s : S} → Q a s → Safe Q E (ok a s)
  fails : {e : Error} {s : S} → E s → Safe Q E (err e s)
  panics : Safe Q E panic

module _ {S A : Type 0} {Q : A → S → Type 0} {E : S → Type 0} where
  pub Safe-bind :
      {B : Type 0} {P : B → S → Type 0} {r : Run S A} {k : A → Cmd S B}
      → Safe Q E r
      → ((a : A) (s : S) → Q a s → Safe P E (k a s))
      → Safe P E (and_then r k)
  Safe-bind (gives q) next = next _ _ q
  Safe-bind (fails e) next = fails e
  Safe-bind panics next = panics

  pub Safe-mono :
      {P : A → S → Type 0} {F : S → Type 0} {r : Run S A}
      → Safe Q E r
      → ((a : A) (s : S) → Q a s → P a s)
      → ((s : S) → E s → F s)
      → Safe P F r
  Safe-mono (gives q) weaken weaken' = gives (weaken _ _ q)
  Safe-mono (fails e) weaken weaken' = fails (weaken' _ e)
  Safe-mono panics weaken weaken' = panics

  pub Ensures-Safe :
      {F : Error → S → Type 0} {r : Run S A}
      → Ensures Q F r
      → ((e : Error) (s : S) → F e s → E s)
      → Safe Q E r
  Ensures-Safe (returned q) weaken = gives q
  Ensures-Safe (failed e) weaken = fails (weaken _ _ e)

pub Safe-panic_on :
    {S A : Type 0} {Q : A → S → Type 0} {E F : S → Type 0} {r : Run S A}
    → Safe Q E r
    → Safe Q F (panic_on r)
unfolding panic_on
Safe-panic_on (gives q) = gives q
Safe-panic_on (fails e) = panics
Safe-panic_on panics = panics
