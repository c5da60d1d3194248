-- ===== src/Serv/Unopened.antt =====
-- Requests of fs/serv.c that name an entry of the table that was never opened.
use spring_os.Base.{ℕ, ◌/◌, ◌%◌, ◌<◌, ◌≡◌, refl, true, false, none, ltb, leb, arith}
use spring_os.Base.Run.{panic, ok}
use spring_os.Fs.Files.{by2blk, nindirect}
use spring_os.Serv.{
  Server, maxopen, serve_init, open_lookup, file_of, answering, on_open, serve_map, serve_set_size,
  serve_dirty, serve_close, Request, map_file, set_size, dirty_file, close_file, serve_request,
}

-- A request on the open file with the identifier, within the largest file.
pub data IsOn (fileid : ℕ) : Request → Type 0 where
  map_on : {offset : ℕ} → offset / by2blk < nindirect → IsOn fileid (map_file fileid offset)
  size_on : {size : ℕ} → IsOn fileid (set_size fileid size)
  dirty_on : {offset : ℕ} → offset / by2blk < nindirect → IsOn fileid (dirty_file fileid offset)
  close_on : IsOn fileid (close_file fileid)

file_of-none : (i : ℕ) (s : Server) → (s.opentab i).o_file ≡ none → file_of i false s ≡ panic
unfolding file_of
file_of-none i s h = ground arith

module _ (s : Server) (fileid : ℕ) (lt : fileid < maxopen) (free : s.pageref fileid ≡ 0)
    (no_file : (s.opentab fileid).o_file ≡ none) where
  open_lookup_unopened : open_lookup fileid (serve_init s) ≡ ok fileid (serve_init s)
  unfolding open_lookup serve_init
  open_lookup_unopened =
      let same : fileid % maxopen ≡ fileid = omega arith in
      let test : ltb fileid maxopen ≡ true = ground arith in rw (same, free, test) (ground arith)

  file_of_unopened : file_of fileid false (serve_init s) ≡ panic
  unfolding serve_init
  file_of_unopened =
      let test : ltb fileid maxopen ≡ true = ground arith in
      file_of-none fileid (serve_init s) (rw test no_file)

  -- After `serve_init`, a request to map, resize, mark dirty or close a file under the
  -- identifier of an entry that was never opened (for the first two offsets, within the largest
  -- file) is not refused: the null file pointer of the entry is dereferenced.
  pub serve_request_unopened :
      (whom : ℕ) (r : Request) → IsOn fileid r → serve_request whom r (serve_init s) ≡ panic
  unfolding serve_request serve_map serve_set_size serve_dirty serve_close on_open answering
  serve_request_unopened whom _ (map_on {offset} near) =
      let far : leb nindirect (offset / by2blk) ≡ false = ground arith in
      rw (open_lookup_unopened, far, file_of_unopened) refl
  serve_request_unopened whom _ size_on = rw (open_lookup_unopened, file_of_unopened) refl
  serve_request_unopened whom _ (dirty_on {offset} near) =
      let far : leb nindirect (offset / by2blk) ≡ false = ground arith in
      rw (open_lookup_unopened, far, file_of_unopened) refl
  serve_request_unopened whom _ close_on = rw (open_lookup_unopened, file_of_unopened) refl
