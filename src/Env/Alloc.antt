-- ===== src/Env/Alloc.antt =====
-- `env_alloc` of kern/env.c: what it makes of the head of the list of free environments.
use spring_os.Base.{
  ℕ, ◌<◌, ◌≡◌, ◌≢◌, refl, sym, subst, true, false, List, [], ◌∷◌, ◌==◌, if◌then◌else◌, arith, erase,
  update,
}
use spring_os.Base.Run.{
  and_then, Run, Cmd, ok, err, panic, panic_on, put_back, Safe, gives, fails, panics, Safe-bind,
  Safe-panic_on, Ensures-Safe, Safe-mono,
}
use spring_os.Pmap.{PageState, page_alloc, inc_ref}
use spring_os.Kernel.{Kernel, on_vm, set_env}
use spring_os.Asid.{asid_used, asid_alloc}
use spring_os.Asid.Laws.{asid_alloc-Taken}
use spring_os.Env.{nenv, envx, mkenvid, env_setup_vm, env_fill, alloc_from, env_alloc}
use spring_os.Env.Ids.{envx-make_id}

-- Only memory has changed.
abbrev pub OnlyMemory : Kernel → Kernel → Type 0
OnlyMemory k l = l ≡ record k { vm = l.vm }

module _ {A B : Type 0} {Q : B → Kernel → Type 0} {E : Kernel → Type 0} (k : Kernel)
    (next : A → Cmd Kernel B) where
  -- What holds of the rest holds after an operation on memory, which changes nothing else.
  pub Safe-put_back :
      (r : Run PageState A)
      → ((a : A) (t : PageState) → Safe Q E (next a (record k { vm = t })))
      → ((t : PageState) → E (record k { vm = t }))
      → Safe Q E (and_then (put_back (λ t. record k { vm = t }) r) next)
  Safe-put_back (ok a t) rest failing = rest a t
  Safe-put_back (err e t) rest failing = fails (failing t)
  Safe-put_back panic rest failing = panics

  pub Safe-on_vm :
      (m : Cmd PageState A)
      → ((a : A) (t : PageState) → Safe Q E (next a (record k { vm = t })))
      → ((t : PageState) → E (record k { vm = t }))
      → Safe Q E (and_then (on_vm m k) next)
  unfolding on_vm
  Safe-on_vm m rest failing = Safe-put_back (m k.vm) rest failing

-- What `env_alloc` makes of environment `e`, the head of the list.
pub record Fresh (k : Kernel) (e : ℕ) (l : Kernel) : Type 0 where
  pub head : k.env_free_list ≡ e ∷ l.env_free_list
  pub sched : l.env_sched_list ≡ k.env_sched_list
  pub curenv : l.curenv ≡ k.curenv
  pub kept : (y : ℕ) → y ≢ e → l.envs y ≡ k.envs y
  pub status : (l.envs e).env_status ≡ (k.envs e).env_status
  pub parent : ℕ
  pub id : e < nenv → envx (l.envs e).env_id ≡ e
  pub asid_free : asid_used k.asid_bitmap (l.envs e).env_asid ≡ false
  pub asids :
      (j : ℕ)
      → asid_used l.asid_bitmap j
        ≡ (if (l.envs e).env_asid == j then true else asid_used k.asid_bitmap j)

-- The bitmap after identifier `i`, which was not in use, is taken.
record Marked (b : ℕ → ℕ) (i : ℕ) (c : ℕ → ℕ) : Type 0 where
  free : asid_used b i ≡ false
  used : (j : ℕ) → asid_used c j ≡ (if i == j then true else asid_used b j)

Safe-asid_alloc :
    {B : Type 0} {Q : B → Kernel → Type 0} {E : Kernel → Type 0} (k : Kernel)
    (next : ℕ → Cmd Kernel B)
    → ((i : ℕ) (c : ℕ → ℕ)
        → Marked k.asid_bitmap i c
        → Safe Q E (next i (record k { asid_bitmap = c })))
    → Safe Q E (and_then (panic_on (asid_alloc k)) next)
Safe-asid_alloc {Q = Q} {E = E} k next rest =
    Safe-bind {E = E}
      (Safe-panic_on {E = λ _. Unit {0}} (Ensures-Safe (asid_alloc-Taken k) (λ _ _ _. tt)))
      (λ i l t.
        subst (λ s. Safe Q E (next i s)) (sym t.rest)
          (rest i l.asid_bitmap (record { free = t.was_free; used = t.marked })))

erase_head : (l : List ℕ) (e : ℕ) (rest : List ℕ) → l ≡ e ∷ rest → l ≡ e ∷ erase e l
erase_head l e rest h = ground (arith, h)

env_fill-Fresh :
    (k : Kernel) (e parent p : ℕ) (t : PageState) (rest : List ℕ)
    → k.env_free_list ≡ e ∷ rest
    → Safe
        (λ i l. (i ≡ e) × Fresh k e l)
        (λ l. ⊥)
        (env_fill e parent
          (record k { vm = t; envs = update k.envs e (record (k.envs e) { env_pgdir = p }) }))
unfolding env_fill set_env mkenvid
env_fill-Fresh k e parent p t rest head =
    let same : (e == e) ≡ true = ground arith in
    Safe-asid_alloc _ _ (λ i c m. gives (
      refl,
      record {
        head = erase_head k.env_free_list e rest head;
        sched = refl;
        curenv = refl;
        kept = λ y ne. ground arith;
        status = ground arith;
        parent = parent;
        id = λ lt. rw same (envx-make_id _ e lt);
        asid_free = rw same m.free;
        asids = λ j. rw same (m.used j);
      },
    ))

-- Memory has changed, and the directory of an environment.
record NewDirectory (k : Kernel) (e : ℕ) (l : Kernel) : Type 0 where
  page : ℕ
  memory : PageState
  same :
      l ≡ record k { vm = memory; envs = update k.envs e (record (k.envs e) { env_pgdir = page }) }

env_setup_vm-NewDirectory :
    (k : Kernel) (e : ℕ) → Safe (λ _ l. NewDirectory k e l) (OnlyMemory k) (env_setup_vm e k)
unfolding env_setup_vm set_env inc_ref
env_setup_vm-NewDirectory k e =
    Safe-put_back k _ (page_alloc k.vm)
      (λ p t. gives (record { page = p; memory = _; same = refl })) (λ t. refl)

alloc_from-Fresh :
    (k : Kernel) (parent : ℕ) (q : List ℕ)
    → k.env_free_list ≡ q
    → Safe (λ e l. Fresh k e l) (OnlyMemory k) (alloc_from parent q k)
unfolding alloc_from
alloc_from-Fresh k parent [] head = fails refl
alloc_from-Fresh k parent (e ∷ rest) head =
    Safe-bind {k = λ _. env_fill e parent} (env_setup_vm-NewDirectory k e) (λ _ l d.
      subst (λ s. Safe (λ e l. Fresh k e l) (OnlyMemory k) (env_fill e parent s)) (sym d.same)
        (Safe-mono (env_fill-Fresh k e parent d.page d.memory rest head)
          (λ i l (eq, f). subst (λ y. Fresh k y l) (sym eq) f) (λ l no. absurd no)))

-- `env_alloc` takes the head of the free list and gives it an identifier that holds its index and
-- an unused address space identifier; if it fails, only memory has changed.
pub env_alloc-Fresh :
    (k : Kernel) (parent : ℕ) → Safe (λ e l. Fresh k e l) (OnlyMemory k) (env_alloc parent k)
unfolding env_alloc
env_alloc-Fresh k parent = alloc_from-Fresh k parent k.env_free_list refl
