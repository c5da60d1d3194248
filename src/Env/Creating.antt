-- ===== src/Env/Creating.antt =====
-- `env_create` of kern/env.c, with the loading of a binary, keeps the environments and their lists
-- consistent.
use spring_os.Base.{
  ℕ, zero, suc, ◌≡◌, refl, sym, ap, ◌∙◌, subst, inl, inr, false, not, Option, ◌∷◌, ltb, ◌==◌, has,
  Distinct, update, arith, Bool-cases,
}
use spring_os.Base.Run.{
  Run, Cmd, ok, err, put_back, pure, when, Safe, gives, fails, panics, Safe-bind, Safe-mono,
  Safe-panic_on, ◌>>◌,
}
use spring_os.Pmap.{PageState, page_alloc, page_insert}
use spring_os.Kernel.{Env, Kernel, status_runnable, on_vm, set_env, get_env, sched_insert_head}
use spring_os.Elf.{
  Phdr, Mapper, seg_offset, load_file, load_rest, elf_load_seg, is_elf, phdr_at, half_at, word_at,
}
use spring_os.Env.Alloc.{Fresh, env_alloc-Fresh}
use spring_os.Env.Adding.{by_env, was_free, added-IsConsistent}
use spring_os.Env.Consistent.{IsConsistent, IsConsistent-beside, IsConsistent-touch}
use spring_os.Env.Create.{
  copy_in, load_icode_mapper, pt_load, load_phdr, load_phdrs, load_icode, env_create,
}
use spring_os.Sched.Slices.{IsScheduled}
use spring_os.Syscall.Consistent.{Keeps}

-- A loader whose mapper keeps a property of the state keeps it too.
module _ {S : Type 0} (P : S → Type 0) (map_page : Mapper S)
    (keep : (va offset perm : ℕ) (src : Option ℕ) (len : ℕ) (s : S)
      → P s
      → Safe (λ _ t. P t) P (map_page va offset perm src len s))
    (ph : Phdr) (bin : ℕ) where
  load_file-Safe :
      (rounds i : ℕ) (s : S) → P s → Safe (λ _ t. P t) P (load_file map_page ph bin rounds i s)
  unfolding load_file
  load_file-Safe zero i s p = elim (Bool-cases (ltb i ph.p_filesz)) [
    | inl more ↦ rw more panics
    | inr done ↦ rw done (gives p)
  ]
  load_file-Safe (suc rounds) i s p = elim (Bool-cases (ltb i ph.p_filesz)) [
    | inl more ↦ rw more (Safe-bind (keep _ _ _ _ _ s p) (λ _ t q. load_file-Safe rounds _ t q))
    | inr done ↦ rw done (gives p)
  ]

  load_rest-Safe :
      (rounds i : ℕ) (s : S) → P s → Safe (λ _ t. P t) P (load_rest map_page ph bin rounds i s)
  unfolding load_rest
  load_rest-Safe zero i s p = elim (Bool-cases (ltb i ph.p_memsz)) [
    | inl more ↦ rw more panics
    | inr done ↦ rw done (gives p)
  ]
  load_rest-Safe (suc rounds) i s p = elim (Bool-cases (ltb i ph.p_memsz)) [
    | inl more ↦ rw more (Safe-bind (keep _ _ _ _ _ s p) (λ _ t q. load_rest-Safe rounds _ t q))
    | inr done ↦ rw done (gives p)
  ]

  elf_load_seg-Safe : (s : S) → P s → Safe (λ _ t. P t) P (elf_load_seg map_page ph bin s)
  unfolding elf_load_seg when
  elf_load_seg-Safe s p = elim (Bool-cases (not (seg_offset ph == 0))) [
    | inl part ↦ rw part (
        Safe-bind (keep _ _ _ _ _ s p)
          (λ _ t q. Safe-bind (load_file-Safe _ _ t q) (λ i u r. load_rest-Safe _ i u r)))
    | inr aligned ↦
        rw aligned (Safe-bind (load_file-Safe _ _ s p) (λ i u r. load_rest-Safe _ i u r))
  ]

-- Environment `e` is runnable, and only has to join the list at its head.
Pending : ℕ → Kernel → Type 0
Pending e k = IsConsistent (record k { env_sched_list = e ∷ k.env_sched_list })

module _ (e : ℕ) where
  Pending-put_back :
      {A : Type 0} (k : Kernel) (r : Run PageState A)
      → Pending e k
      → Safe (λ _ l. Pending e l) (Pending e) (put_back (λ t. record k { vm = t }) r)
  unfolding Pending
  Pending-put_back k (ok a t) s = gives (IsConsistent-beside t k.kstack_tf s)
  Pending-put_back k (err f t) s = fails (IsConsistent-beside t k.kstack_tf s)
  Pending-put_back k Run.panic s = panics

  Pending-vm :
      {A : Type 0} (m : Cmd PageState A) (k : Kernel)
      → Pending e k
      → Safe (λ _ l. Pending e l) (Pending e) (on_vm m k)
  unfolding on_vm
  Pending-vm m k s = Pending-put_back k (m k.vm) s

  mapper-Pending :
      (binary : ℕ → ℕ) (va offset perm : ℕ) (src : Option ℕ) (len : ℕ) (k : Kernel)
      → Pending e k
      → Safe (λ _ l. Pending e l) (Pending e) (load_icode_mapper binary e va offset perm src len k)
  unfolding load_icode_mapper get_env
  mapper-Pending binary va offset perm src len k s =
      Safe-bind (Pending-vm page_alloc k s) (λ pp l s.
        Safe-bind (Pending-vm (copy_in binary pp offset src len) l s) (λ _ m s.
          Pending-vm (page_insert (m.envs e).env_pgdir (m.envs e).env_asid pp va perm) m s))

  load_phdr-Pending :
      (binary : ℕ → ℕ) (ph : Phdr) (k : Kernel)
      → Pending e k
      → Safe (λ _ l. Pending e l) (λ l. ⊥) (load_phdr binary e ph k)
  unfolding load_phdr when
  load_phdr-Pending binary ph k s = elim (Bool-cases (ph.p_type == pt_load)) [
    | inl loaded ↦ rw loaded (
        Safe-panic_on (
          elf_load_seg-Safe (Pending e) (load_icode_mapper binary e) (mapper-Pending binary) ph
            ph.p_offset k s))
    | inr skipped ↦ rw skipped (gives s)
  ]

  load_phdrs-Pending :
      (left : ℕ) (binary : ℕ → ℕ) (at : ℕ) (k : Kernel)
      → Pending e k
      → Safe (λ _ l. Pending e l) (λ l. ⊥) (load_phdrs left binary e at k)
  unfolding load_phdrs
  load_phdrs-Pending zero binary at k s = gives s
  load_phdrs-Pending (suc left) binary at k s =
      Safe-bind (load_phdr-Pending binary (phdr_at binary at) k s)
        (λ _ l s. load_phdrs-Pending left binary _ l s)

  load_icode-Pending :
      (binary : ℕ → ℕ) (size : ℕ) (k : Kernel)
      → Pending e k
      → Safe (λ _ l. Pending e l) (λ l. ⊥) (load_icode e binary size k)
  unfolding load_icode set_env Pending
  load_icode-Pending binary size k s = elim (Bool-cases (is_elf binary size)) [
    | inl elf ↦ rw elf (
        Safe-bind (load_phdrs-Pending (half_at binary 44) binary (word_at binary 28) k s)
          (λ _ l s. gives (IsConsistent-touch s e _ refl refl refl)))
    | inr other ↦ rw other panics
  ]

module _ {k l : Kernel} {e : ℕ} (s : IsConsistent k) (f : Fresh k e l) (x : Env)
    (status : x.env_status ≡ status_runnable) where
  create-IsScheduled :
      IsScheduled (record l { envs = update l.envs e x; env_sched_list = e ∷ l.env_sched_list })
  create-IsScheduled =
      let out : has e l.env_sched_list ≡ false =
        ap (has e) f.sched ∙ s.scheduled.exact e ∙ ground (arith, (was_free s f).0) in
      record {
        distinct = (out, subst Distinct (sym f.sched) s.scheduled.distinct);
        exact =
            by_env s f _ (ground (arith, status))
              (λ y ne. ground (arith, ne, ap (has y) f.sched, s.scheduled.exact y, f.kept y ne));
      }

insert_head-Keeps : (e : ℕ) (k : Kernel) → Pending e k → Keeps ((do sched_insert_head e; pure e) k)
unfolding sched_insert_head Pending
insert_head-Keeps e k s = elim (Bool-cases (has e k.env_sched_list)) [
  | inl inside ↦ rw inside panics
  | inr outside ↦ rw outside (gives s)
]

pub env_create-IsConsistent :
    (binary : ℕ → ℕ) (size priority : ℕ) (k : Kernel)
    → IsConsistent k
    → Keeps (env_create binary size priority k)
unfolding env_create set_env Pending
env_create-IsConsistent binary size priority k s =
    Safe-bind (Safe-panic_on (env_alloc-Fresh k 0)) (λ e l f.
      Safe-bind
        (Safe-mono
          (load_icode-Pending e binary size _ (
            added-IsConsistent s f _ (e ∷ l.env_sched_list) (λ h. omega (arith, h)) refl refl
              (create-IsScheduled s f
                (record (l.envs e) { env_pri = priority; env_status = status_runnable }) refl)))
          (λ _ m p. p) (λ m no. absurd no))
        (λ _ m p. insert_head-Keeps e m p))
