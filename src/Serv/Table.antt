-- ===== src/Serv/Table.antt =====
-- The table of open files of fs/serv.c: the entry that `open_alloc` takes, and `open_lookup`.
use spring_os.Base.{
  ℕ, zero, suc, ◌+◌, ◌-◌, ◌%◌, ◌^◌, ◌≤◌, ◌<◌, ◌≡◌, ◌≢◌, refl, subst, ap, ◌∙◌, inl, inr, false, ◌==◌,
  if◌then◌else◌, update, arith, Bool-cases,
}
use spring_os.Base.Run.{inval, ok, err, Ensures, returned, Ensures-mono}
use spring_os.Serv.{Server, maxopen, renew, new_filefd, open_from, open_lookup}

-- The page of an entry without one, and the entry with its new identifier.
abbrev pub with_page : ℕ → Server → Server
with_page i s =
    if s.pageref i == 0
    then record s {
      disk = record s.disk { memory = s.disk.memory - 1 };
      pageref = update s.pageref i 1;
    }
    else s

abbrev pub allotted : ℕ → Server → Server
allotted i s = renew i (with_page i s)

-- The first entry from `i` on that no client holds.
pub record Chosen (i : ℕ) (rounds : ℕ) (s : Server) (j : ℕ) (t : Server) : Type 0 where
  pub from : i ≤ j
  pub inside : j < i + rounds
  pub unheld : s.pageref j ≤ 1
  pub first : (k : ℕ) → i ≤ k → k < j → 1 < s.pageref k
  pub result : t ≡ allotted j s

here-Chosen :
    (i rounds : ℕ) (s t : Server) → s.pageref i ≤ 1 → t ≡ allotted i s → Chosen i (suc rounds) s i t
here-Chosen i rounds s t le eq = record {
  from = omega arith;
  inside = omega arith;
  unheld = le;
  first = λ k a b. absurd (omega (arith, a, b));
  result = eq;
}

Chosen-suc :
    (i rounds : ℕ) (s : Server) (j : ℕ) (t : Server)
    → 1 < s.pageref i
    → Chosen (i + 1) rounds s j t
    → Chosen i (suc rounds) s j t
Chosen-suc i rounds s j t held c = record {
  from = omega (arith, c.from);
  inside = omega (arith, c.inside);
  unheld = c.unheld;
  first = λ k a b. elim (Bool-cases (k == i)) [
    | inl same ↦ let z : i ≡ k = ground arith in subst (λ x. 1 < s.pageref x) z held
    | inr other ↦ c.first k (ground arith) b
  ];
  result = c.result;
}

pub open_from-Chosen :
    (rounds i : ℕ) (s : Server) (k : ℕ)
    → 0 < s.disk.memory
    → i ≤ k
    → k < i + rounds
    → s.pageref k ≤ 1
    → Ensures (Chosen i rounds s) (λ _ _. ⊥) (open_from rounds i s)
unfolding open_from new_filefd
open_from-Chosen zero i s k m a b free = absurd (omega (arith, a, b))
open_from-Chosen (suc rounds) i s k m a b free = elim (Bool-cases (s.pageref i == 0)) [
  | inl unused ↦
      let memory : (s.disk.memory == 0) ≡ false = ground arith in
      rw (unused, memory) (returned (here-Chosen i rounds s _ (ground arith) (rw unused refl)))
  | inr used ↦ elim (Bool-cases (s.pageref i == 1)) [
    | inl left ↦ rw (used, left) (returned (here-Chosen i rounds s _ (ground arith) (rw used refl)))
    | inr held ↦
        let more : 1 < s.pageref i = ground arith in
        let apart : i ≢ k = λ z. omega (arith, more, free, ap s.pageref z) in
        rw (used, held)
          (Ensures-mono
            (open_from-Chosen rounds (i + 1) s k m (ground arith) (omega (arith, b)) free)
            (λ j t c. Chosen-suc i rounds s j t more c) (λ e t x. x))
  ]
]

-- An identifier names its entry modulo the size of the table, and has room for another one.
pub record IsTable (s : Server) : Type 0 where
  pub in_place : (i : ℕ) → i < maxopen → (s.opentab i).o_fileid % maxopen ≡ i
  pub room : (i : ℕ) → i < maxopen → (s.opentab i).o_fileid + maxopen < 2 ^ 31

module _ (s : Server) (j : ℕ) where
  with_page-opentab : (with_page j s).opentab ≡ s.opentab
  with_page-opentab = elim (Bool-cases (s.pageref j == 0)) [
    | inl unused ↦ rw unused refl
    | inr used ↦ rw used refl
  ]

  with_page-replies : (with_page j s).replies ≡ s.replies
  with_page-replies = elim (Bool-cases (s.pageref j == 0)) [
    | inl unused ↦ rw unused refl
    | inr used ↦ rw used refl
  ]

  with_page-pageref :
      (k : ℕ) → s.pageref j ≤ 1 → (with_page j s).pageref k ≡ (if k == j then 1 else s.pageref k)
  with_page-pageref k le = elim (Bool-cases (s.pageref j == 0)) [
    | inl unused ↦ rw unused refl
    | inr used ↦ rw used (ground arith)
  ]

  pub memory_left : ℕ
  memory_left = if s.pageref j == 0 then s.disk.memory - 1 else s.disk.memory

  pub allotted-disk : (allotted j s).disk ≡ record s.disk { memory = memory_left }
  unfolding renew memory_left
  allotted-disk = elim (Bool-cases (s.pageref j == 0)) [
    | inl unused ↦ rw unused refl
    | inr used ↦ rw used refl
  ]

-- What `open_alloc` makes of the table.
pub record Renewed (s : Server) (j : ℕ) (t : Server) : Type 0 where
  pub new_id : (t.opentab j).o_fileid ≡ (s.opentab j).o_fileid + maxopen
  pub same_file : (t.opentab j).o_file ≡ (s.opentab j).o_file
  pub one_page : t.pageref j ≡ 1
  pub same_opentab : (k : ℕ) → k ≢ j → t.opentab k ≡ s.opentab k
  pub same_pageref : (k : ℕ) → k ≢ j → t.pageref k ≡ s.pageref k
  pub same_replies : t.replies ≡ s.replies

pub allotted-Renewed :
    (s : Server) (j : ℕ) → IsTable s → j < maxopen → s.pageref j ≤ 1 → Renewed s j (allotted j s)
unfolding renew
allotted-Renewed s j table lt unheld = record {
  new_id = rw (with_page-opentab s j) (ground (arith, table.room j lt));
  same_file = rw (with_page-opentab s j) (ground arith);
  one_page = with_page-pageref s j j unheld ∙ ground arith;
  same_opentab = λ k ne. rw (with_page-opentab s j) (ground arith);
  same_pageref = λ k ne. with_page-pageref s j k unheld ∙ ground arith;
  same_replies = with_page-replies s j;
}

pub open_lookup-found :
    (id i : ℕ) (s : Server)
    → id % maxopen ≡ i
    → s.pageref i ≢ 1
    → (s.opentab i).o_fileid ≡ id
    → open_lookup id s ≡ ok i s
unfolding open_lookup
open_lookup-found id i s at held same =
    let test : (s.pageref i == 1) ≡ false = ground arith in rw (at, test, same) (ground arith)

pub open_lookup-stale :
    (id i : ℕ) (s : Server)
    → id % maxopen ≡ i
    → (s.opentab i).o_fileid ≢ id
    → open_lookup id s ≡ err inval s
unfolding open_lookup
open_lookup-stale id i s at other =
    let test : ((s.opentab i).o_fileid == id) ≡ false = ground arith in rw (at, test) (ground arith)
