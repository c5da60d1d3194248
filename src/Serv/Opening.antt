-- ===== src/Serv/Opening.antt =====
-- The opening of a file by fs/serv.c: the entry of the table and the descriptor page for the client.
use spring_os.Base.{
  ℕ, ◌+◌, ◌%◌, ◌≤◌, ◌<◌, ◌≡◌, ◌≢◌, subst, ap, inl, inr, some, List, ◌∷◌, ◌==◌, if◌then◌else◌, ltb,
  update, arith, Bool-cases,
}
use spring_os.Base.Run.{Error, inval, Run, ok, err}
use spring_os.Fs.{Disk}
use spring_os.Fs.Files.{Slot}
use spring_os.Fs.Paths.{file_open}
use spring_os.Serv.{Server, Open, done, error, no_page, filefd, maxopen, open_lookup}
use spring_os.Serv.Table.{allotted, IsTable, Renewed}

-- The entry `j` is open on file `g`, and the client has its page.
pub record Opened (s : Server) (envid : ℕ) (path : List ℕ) (j : ℕ) (g : Slot) (u : Server)
    : Type 0 where
  pub inside : j < maxopen
  pub unheld : s.pageref j ≤ 1
  pub opens : file_open path (allotted j s).disk ≡ ok g u.disk
  pub file : (u.opentab j).o_file ≡ some g
  pub looked_up : open_lookup (u.filefds j).f_fileid u ≡ ok j u
  pub stale : open_lookup (s.opentab j).o_fileid u ≡ err inval u
  pub copied : (k : ℕ) → k < 64 → (u.filefds j).f_file k ≡ u.disk.words g.0 (g.1 + k)
  pub others : (k : ℕ) → k ≢ j → (u.opentab k ≡ s.opentab k) × (u.pageref k ≡ s.pageref k)
  pub in_place : (k : ℕ) → k < maxopen → (u.opentab k).o_fileid % maxopen ≡ k
  pub replied : u.replies ≡ record { to = envid; answer = done; page = filefd j } ∷ s.replies

-- The file cannot be opened: the client gets the error, and no entry has another file.
pub record Unopened (s : Server) (envid : ℕ) (u : Server) : Type 0 where
  pub why : Error
  pub replied : u.replies ≡ record { to = envid; answer = error why; page = no_page } ∷ s.replies
  pub same_files : (k : ℕ) → (u.opentab k).o_file ≡ (s.opentab k).o_file
  pub in_place : (k : ℕ) → k < maxopen → (u.opentab k).o_fileid % maxopen ≡ k

pub data Served (s : Server) (envid : ℕ) (path : List ℕ) (u : Server) : Type 0 where
  opened : {j : ℕ} {g : Slot} → Opened s envid path j g u → Served s envid path u
  unopened : Unopened s envid u → Served s envid path u

-- Entry `j` filled with file `g` of disk `d`, and sent.
abbrev shared_entry : Server → ℕ → ℕ → ℕ → Slot → Disk → Server
shared_entry t envid omode j g d = record t {
  disk = d;
  opentab = update t.opentab j (record (t.opentab j) { o_file = some g; o_mode = omode });
  filefds = update t.filefds j (record (t.filefds j) {
    fd_dev_id = 102;
    fd_omode = omode;
    f_fileid = (t.opentab j).o_fileid;
    f_file = λ k. if ltb k 64 then d.words g.0 (g.1 + k) else 0;
  });
  pageref = update t.pageref j (t.pageref j + 1);
  replies = record { to = envid; answer = done; page = filefd j } ∷ t.replies;
}

module _ (s : Server) (j : ℕ) (t : Server) (table : IsTable s) (lt : j < maxopen)
    (r : Renewed s j t) where
  same_files : (k : ℕ) → (t.opentab k).o_file ≡ (s.opentab k).o_file
  same_files k = elim (Bool-cases (k == j)) [
    | inl same ↦
        let z : j ≡ k = ground arith in
        subst (λ x. (t.opentab x).o_file ≡ (s.opentab x).o_file) z r.same_file
    | inr other ↦ ap (λ (o : Open). o.o_file) (r.same_opentab k (ground arith))
  ]
