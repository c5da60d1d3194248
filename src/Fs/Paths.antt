-- ===== src/Fs/Paths.antt =====
-- Directories and paths of fs/fs.c. A name is the list of its characters before the end mark, and ends
-- with its field if it has none; the machine is little-endian.
pub mod Walking
use spring_os.Base.{
  ℕ, zero, suc, ◌+◌, ◌-◌, ◌*◌, ◌/◌, ◌%◌, ◌^◌, Bool, true, false, not, ◌&&◌, ◌||◌, Option, none,
  some, List, [], ◌∷◌, length, ltb, leb, ◌==◌, if◌then◌else◌, update,
}
use spring_os.Base.Run.{
  Error, not_found, bad_path, file_exists, Run, Cmd, ok, err, panic, pure, fail, fault, get, modify,
  check, and_then, ◌>>=◌, ◌>>◌,
}
use spring_os.Base.Bits.{byte_of, set_byte}
use spring_os.Fs.{Disk}
use spring_os.Fs.Files.{
  Slot, read_word, write_word, by2blk, f_size, f_type, f_dir, address_of, file_get_block,
  file_truncate, file_flush, flush_dir,
}

abbrev pub maxnamelen : ℕ
maxnamelen = 128

abbrev pub file2blk : ℕ
file2blk = 16

abbrev pub ftype_dir : ℕ
ftype_dir = 1

-- `f->f_name[i]`
unfoldable pub name_char : Disk → Slot → ℕ → ℕ
name_char d f i = byte_of (d.words f.0 (f.1 + i / 4)) (i % 4)

unfoldable pub name_from : ℕ → Disk → Slot → ℕ → List ℕ
name_from zero d f i = []
name_from (suc rounds) d f i =
    let rest = name_from rounds d f (i + 1) in
    if name_char d f i == 0 then [] else name_char d f i ∷ rest

unfoldable pub f_name : Disk → Slot → List ℕ
f_name d f = name_from maxnamelen d f 0

unfoldable pub set_name_char : Slot → ℕ → ℕ → Cmd Disk (Unit {0})
set_name_char f i c = do
  w ← read_word (f.0, f.1 + i / 4)
  write_word (f.0, f.1 + i / 4) (set_byte w (i % 4) c)

-- `strcpy(f->f_name + i, name)`
unfoldable pub set_name : Slot → ℕ → List ℕ → Cmd Disk (Unit {0})
set_name f i [] = set_name_char f i 0
set_name f i (c ∷ cs) = do set_name_char f i c; set_name f (i + 1) cs

-- `strcmp(a, b) == 0`
unfoldable pub same_name : List ℕ → List ℕ → Bool
same_name [] [] = true
same_name [] (c ∷ cs) = false
same_name (b ∷ bs) [] = false
same_name (b ∷ bs) (c ∷ cs) = (b == c) && same_name bs cs

-- The entry `j` of a directory block.
abbrev pub entry : ℕ → ℕ → Slot
entry bno j = (bno, j * 64)

-- The first entry of a block that the test accepts, from `j` on.
unfoldable pub find_entry : ℕ → (Slot → Bool) → ℕ → ℕ → Option Slot
find_entry zero test bno j = none
find_entry (suc rounds) test bno j =
    let rest = find_entry rounds test bno (j + 1) in
    if test (entry bno j) then some (entry bno j) else rest

-- The blocks of a directory searched in turn, from block `i` on.
unfoldable pub search_blocks : ℕ → (Disk → Slot → Bool) → Slot → ℕ → Cmd Disk (Option Slot)
search_blocks zero test dir i = pure none
search_blocks (suc rounds) test dir i = do
  bno ← file_get_block dir i
  d ← get
  elim (find_entry file2blk (test d) bno 0) [
    | some f ↦ pure (some f)
    | none ↦ search_blocks rounds test dir (i + 1)
  ]

unfoldable pub enter_dir : Slot → Option Slot → Cmd Disk Slot
enter_dir dir none = fail not_found
enter_dir dir (some f) = do write_word (f_dir f) (address_of dir); pure f

unfoldable pub dir_lookup : Slot → List ℕ → Cmd Disk Slot
dir_lookup dir name = do
  size ← read_word (f_size dir)
  found ← search_blocks (size / by2blk) (λ d f. same_name (f_name d f) name) dir 0
  enter_dir dir found

-- A new block for a directory that is full.
unfoldable pub free_entry : Slot → ℕ → Option Slot → Cmd Disk Slot
free_entry dir size (some f) = pure f
free_entry dir size none = do
  write_word (f_size dir) ((size + by2blk) % 2 ^ 32)
  bno ← file_get_block dir (size / by2blk)
  pure (entry bno 0)

unfoldable pub dir_alloc_file : Slot → Cmd Disk Slot
dir_alloc_file dir = do
  size ← read_word (f_size dir)
  found ← search_blocks (size / by2blk) (λ d f. name_char d f 0 == 0) dir 0
  free_entry dir size found

unfoldable pub skip_slash : List ℕ → List ℕ
skip_slash [] = []
skip_slash (c ∷ path) = if c == 47 then skip_slash path else c ∷ path

-- The element up to the next slash, and the rest from there.
unfoldable pub split_element : List ℕ → List ℕ × List ℕ
split_element [] = ([], [])
split_element (c ∷ path) =
    let rest = split_element path in if c == 47 then ([], c ∷ path) else (c ∷ rest.0, rest.1)

-- The results of `walk_path`: the file with its directory; -E_NOT_FOUND with the directory that lacks
-- the last element; any other error.
pub data Walk : Type 0 where
  found : Option Slot → Slot → Walk
  missing : Slot → List ℕ → Walk
  failed : Error → Walk

-- What follows `dir_lookup`: the next element, or the answer to an error; `last` tells whether the
-- path ends here.
unfoldable pub after_lookup :
    (Slot → Cmd Disk Walk) → Slot → List ℕ → Bool → Run Disk Slot → Run Disk Walk
after_lookup next dir name last (ok file d) = next file d
after_lookup next dir name true (err not_found d) = ok (missing dir name) d
after_lookup next dir name last (err e d) = ok (failed e) d
after_lookup next dir name last panic = panic

-- One element of the path, looked up in `dir`.
unfoldable pub walk_element : (Slot → Cmd Disk Walk) → Slot → List ℕ → Bool → Cmd Disk Walk
walk_element next dir name last =
    if leb maxnamelen (length name) then pure (failed bad_path) else (do
      type ← read_word (f_type dir)
      if type == ftype_dir
          then (λ d. after_lookup next dir name last (dir_lookup dir name d))
          else pure (failed not_found))

abbrev pub is_empty : {A : Type 0} → List A → Bool
is_empty [] = true
is_empty (x ∷ xs) = false

-- The loop of `walk_path`, for so many elements at most.
unfoldable pub walk : ℕ → Slot → Option Slot → List ℕ → Cmd Disk Walk
walk rounds file dir [] = pure (found dir file)
walk zero file dir (c ∷ path) = fault
walk (suc rounds) file dir (c ∷ path) =
    let split = split_element (c ∷ path) in
    let rest = skip_slash split.1 in
    walk_element (λ next. walk rounds next (some file) rest) file split.0 (is_empty rest)

-- `&super->s_root`
abbrev pub root : Slot
root = (1, 2)

unfoldable pub walk_path : List ℕ → Cmd Disk Walk
walk_path path = let start = skip_slash path in walk (length start) root none start

unfoldable pub opened : Walk → Cmd Disk Slot
opened (found dir file) = pure file
opened (missing dir name) = fail not_found
opened (failed e) = fail e

unfoldable pub file_open : List ℕ → Cmd Disk Slot
file_open path = walk_path path >>= opened

-- Every error of `dir_alloc_file` becomes -E_NOT_FOUND, the error of the walk.
unfoldable pub allocated_or_missing : Run Disk Slot → Run Disk Slot
allocated_or_missing (ok f d) = ok f d
allocated_or_missing (err e d) = err not_found d
allocated_or_missing panic = panic

unfoldable pub created : Walk → Cmd Disk Slot
created (found dir file) = fail file_exists
created (missing dir name) = do
  f ← (λ d. allocated_or_missing (dir_alloc_file dir d))
  set_name f 0 name
  pure f
created (failed e) = fail e

unfoldable pub file_create : List ℕ → Cmd Disk Slot
file_create path = walk_path path >>= created

unfoldable pub file_remove : List ℕ → Cmd Disk (Unit {0})
file_remove path = do
  f ← file_open path
  file_truncate f 0
  set_name_char f 0 0
  file_flush f
  flush_dir f
