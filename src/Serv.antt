-- ===== src/Serv.antt =====
-- The requests of the file system server: fs/serv.c, with the table of open files.
pub mod Table
pub mod Opening
pub mod Unopened
pub mod Examples
use spring_os.Base.{
  ℕ, zero, suc, ◌+◌, ◌-◌, ◌/◌, ◌%◌, ◌^◌, Bool, true, false, not, ◌&&◌, ◌||◌, Option, none, some,
  List, [], ◌∷◌, ltb, leb, ◌==◌, if◌then◌else◌, update,
}
use spring_os.Base.Run.{
  Error, no_mem, max_open, inval, Run, Cmd, ok, err, panic, pure, fail, fault, get, modify, check,
  when, put_back, and_then, ◌>>=◌, ◌>>◌,
}
use spring_os.Fs.{Disk}
use spring_os.Fs.Files.{
  Slot, read_word, file_get_block, file_set_size, file_close, file_dirty, fs_sync, by2blk,
  nindirect,
}
use spring_os.Fs.Paths.{file_open, file_remove}

-- An entry of `opentab`; `o_file` is none while it is null. `o_ff` is the page of the entry.
pub record Open : Type 0 where
  pub o_file : Option Slot
  pub o_fileid : ℕ
  pub o_mode : ℕ

-- The page that the client gets; `f_file` holds the words of the `struct File`.
pub record Filefd : Type 0 where
  pub fd_dev_id : ℕ
  pub fd_offset : ℕ
  pub fd_omode : ℕ
  pub f_fileid : ℕ
  pub f_file : ℕ → ℕ

-- The page that goes with a reply: the descriptor page of an entry, or the page of a block.
pub data Page : Type 0 where
  no_page : Page
  filefd : ℕ → Page
  block : ℕ → Page

-- `ipc_send` of 0, of an error, or of a file identifier taken for an error.
pub data Answer : Type 0 where
  done : Answer
  error : Error → Answer
  negative : ℕ → Answer

pub record Reply : Type 0 where
  pub to : ℕ
  pub answer : Answer
  pub page : Page

-- The state of the server. `pageref` counts the references to the descriptor page of an entry, in all
-- environments. `replies` lists what was sent, the latest first.
pub record Server : Type 0 where
  pub disk : Disk
  pub opentab : ℕ → Open
  pub pageref : ℕ → ℕ
  pub filefds : ℕ → Filefd
  pub replies : List Reply

abbrev pub maxopen : ℕ
maxopen = 1024

-- `devfile.dev_id`
abbrev pub devfile_id : ℕ
devfile_id = 102

unfoldable pub on_fs : {A : Type 0} → Cmd Disk A → Cmd Server A
on_fs m s = put_back (λ d. record s { disk = d }) (m s.disk)

-- A client maps the page that it gets, so a descriptor page has one more reference.
unfoldable pub shared : Page → (ℕ → ℕ) → ℕ → ℕ
shared no_page refs = refs
shared (filefd i) refs = update refs i (refs i + 1)
shared (block b) refs = refs

unfoldable pub ipc_send : ℕ → Answer → Page → Cmd Server (Unit {0})
ipc_send envid answer page = modify λ s. record s {
  pageref = shared page s.pageref;
  replies = record { to = envid; answer = answer; page = page } ∷ s.replies;
}

unfoldable pub serve_init : Server → Server
serve_init s = record s {
  opentab = λ i. if ltb i maxopen then record (s.opentab i) { o_fileid = i } else s.opentab i;
}

abbrev pub zeros : Filefd
zeros = record { fd_dev_id = 0; fd_offset = 0; fd_omode = 0; f_fileid = 0; f_file = λ j. 0 }

-- `case 1` of `open_alloc`: the entry gets a new identifier and its page is cleared.
unfoldable pub renew : ℕ → Server → Server
renew i s = record s {
  opentab =
      update s.opentab i
        (record (s.opentab i) { o_fileid = ((s.opentab i).o_fileid + maxopen) % 2 ^ 32 });
  filefds = update s.filefds i zeros;
}

-- `case 0`: the entry gets a page first.
unfoldable pub new_filefd : ℕ → Cmd Server (Unit {0})
new_filefd i s =
    if s.disk.memory == 0
    then err no_mem s
    else ok tt (record s {
      disk = record s.disk { memory = s.disk.memory - 1 };
      pageref = update s.pageref i 1;
    })

-- The loop of `open_alloc` from entry `i` on, with the rounds left. The result is the entry.
unfoldable pub open_from : ℕ → ℕ → Cmd Server ℕ
open_from zero i s = err max_open s
open_from (suc rounds) i s =
    let rest = open_from rounds (i + 1) s in
    if s.pageref i == 0
    then and_then (new_filefd i s) (λ _ t. ok i (renew i t))
    else if s.pageref i == 1
    then ok i (renew i s)
    else rest

unfoldable pub open_alloc : Cmd Server ℕ
open_alloc = open_from maxopen 0

unfoldable pub open_lookup : ℕ → Cmd Server ℕ
open_lookup fileid s =
    let i = fileid % maxopen in
    if (s.pageref i == 1) || not ((s.opentab i).o_fileid == fileid) then err inval s else ok i s

-- `o->o_file`, to be dereferenced, unless the block is past the end of every file: that is an error
-- before the file is looked at.
unfoldable pub file_of : ℕ → Bool → Cmd Server Slot
file_of i far s = elim ((s.opentab i).o_file) [
  | none ↦ if far then err inval s else panic
  | some f ↦ ok f s
]

-- A call whose error is sent to the client.
unfoldable pub answering :
    {A : Type 0} → ℕ → Run Server A → (A → Cmd Server (Unit {0})) → Run Server (Unit {0})
answering envid (ok a s) next = next a s
answering envid (err e s) next = ipc_send envid (error e) no_page s
answering envid panic next = panic

-- What `serve_open` does with the file: the entry and its descriptor page are filled.
unfoldable pub fill_entry : ℕ → ℕ → Slot → Cmd Server (Unit {0})
fill_entry i omode f s =
    if s.disk.cached f.0
    then ok tt (record s {
      opentab = update s.opentab i (record (s.opentab i) { o_file = some f; o_mode = omode });
      filefds = update s.filefds i (record (s.filefds i) {
        fd_dev_id = devfile_id;
        fd_omode = omode;
        f_fileid = (s.opentab i).o_fileid;
        f_file = λ j. if ltb j 64 then s.disk.words f.0 (f.1 + j) else 0;
      });
    })
    else panic

-- The file is handed to the client in the entry that `open_alloc` gave; without one the pointer to
-- the entry is not initialised.
unfoldable pub hand_over : ℕ → ℕ → Option ℕ → Slot → Cmd Server (Unit {0})
hand_over envid omode none f = fault
hand_over envid omode (some i) f = do fill_entry i omode f; ipc_send envid done (filefd i)

-- `serve_open` from `file_open` on.
unfoldable pub open_into : ℕ → List ℕ → ℕ → Option ℕ → Cmd Server (Unit {0})
open_into envid path omode o s =
    answering envid (on_fs (file_open path) s) (hand_over envid omode o)

-- The identifier that `open_alloc` returns is an `int`: from 2^31 on it is taken for an error.
unfoldable pub warn_negative : ℕ → ℕ → Cmd Server (Unit {0})
warn_negative envid i s =
    when (leb (2 ^ 31) (s.opentab i).o_fileid)
      (ipc_send envid (negative (s.opentab i).o_fileid) no_page) s

-- After `open_alloc`. There is no return on an error.
unfoldable pub open_with : ℕ → List ℕ → ℕ → Run Server ℕ → Run Server (Unit {0})
open_with envid path omode (ok i s) =
    (do warn_negative envid i; open_into envid path omode (some i)) s
open_with envid path omode (err e s) =
    (do ipc_send envid (error e) no_page; open_into envid path omode none) s
open_with envid path omode panic = panic

unfoldable pub serve_open : ℕ → List ℕ → ℕ → Cmd Server (Unit {0})
serve_open envid path omode s = open_with envid path omode (open_alloc s)

-- A request on an open file: the file is looked up, and the operation's error is sent.
unfoldable pub on_open :
    {A : Type 0}
    → ℕ
    → ℕ
    → Bool
    → (Slot → Cmd Disk A)
    → (A → Cmd Server (Unit {0}))
    → Cmd Server (Unit {0})
on_open envid fileid far operation next s =
    answering envid (open_lookup fileid s)
      (λ i t. answering envid (and_then (file_of i far t) (λ f. on_fs (operation f))) next)

unfoldable pub serve_map : ℕ → ℕ → ℕ → Cmd Server (Unit {0})
serve_map envid fileid offset =
    on_open envid fileid (leb nindirect (offset / by2blk)) (λ f. file_get_block f (offset / by2blk))
      (λ b. ipc_send envid done (block b))

unfoldable pub serve_set_size : ℕ → ℕ → ℕ → Cmd Server (Unit {0})
serve_set_size envid fileid size =
    on_open envid fileid false (λ f. file_set_size f size) (λ _. ipc_send envid done no_page)

-- `file_close` returns nothing.
unfoldable pub serve_close : ℕ → ℕ → Cmd Server (Unit {0})
serve_close envid fileid = on_open envid fileid false file_close (λ _. ipc_send envid done no_page)

unfoldable pub serve_dirty : ℕ → ℕ → ℕ → Cmd Server (Unit {0})
serve_dirty envid fileid offset =
    on_open envid fileid (leb nindirect (offset / by2blk)) (λ f. file_dirty f offset)
      (λ _. ipc_send envid done no_page)

unfoldable pub serve_remove : ℕ → List ℕ → Cmd Server (Unit {0})
serve_remove envid path s =
    answering envid (on_fs (file_remove path) s) (λ _. ipc_send envid done no_page)

unfoldable pub serve_sync : ℕ → Cmd Server (Unit {0})
serve_sync envid = do on_fs fs_sync; ipc_send envid done no_page

-- A request with its argument page, or one of another code, which gets no reply.
pub data Request : Type 0 where
  open_file : List ℕ → ℕ → Request
  map_file set_size dirty_file : ℕ → ℕ → Request
  close_file : ℕ → Request
  remove_file : List ℕ → Request
  sync_all : Request
  other_code : Request

unfoldable pub serve_request : ℕ → Request → Cmd Server (Unit {0})
serve_request whom (open_file path omode) = serve_open whom path omode
serve_request whom (map_file fileid offset) = serve_map whom fileid offset
serve_request whom (set_size fileid size) = serve_set_size whom fileid size
serve_request whom (dirty_file fileid offset) = serve_dirty whom fileid offset
serve_request whom (close_file fileid) = serve_close whom fileid
serve_request whom (remove_file path) = serve_remove whom path
serve_request whom sync_all = serve_sync whom
serve_request whom other_code = pure tt

-- One round of `serve`: a request without its page is left hanging.
unfoldable pub serve_round : ℕ → Bool → Request → Cmd Server (Unit {0})
serve_round whom valid request = when valid (serve_request whom request)
