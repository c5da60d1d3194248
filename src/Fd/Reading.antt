-- ===== src/Fd/Reading.antt =====
-- Reading a file: `read` and `readn` of user/lib/fd.c on the file device of user/lib/file.c.
use spring_os.Base.{
  ℕ, zero, suc, ◌+◌, ◌-◌, ◌/◌, ◌%◌, ◌^◌, ◌<◌, ◌≤◌, ◌≡◌, ◌≢◌, refl, sym, ◌∙◌, inl, inr, true, false,
  ◌&&◌, some, leb, ltb, ◌==◌, if◌then◌else◌, update, min, List, [], ◌∷◌, length, arith, Bool-cases,
}
use spring_os.Base.Run.{Cmd, ok, when}
use spring_os.Serv.{Filefd}
use spring_os.Fd.Files.{bytes_from, file_size, file_read}
use spring_os.Fd.{
  Process, Dev, Stat, maxfd, num2fd, is_mapped, fd_at, set_offset, fd_lookup, fd2data, lookup_from,
  dev_lookup, read, readn, readn_from, o_wronly, is_positive, is_negative,
}

fd_at-mapped :
    (va : ℕ) (p : Process) (pte : ℕ × ℕ)
    → p.vpt (va / 4096) ≡ some pte
    → fd_at va p ≡ ok (p.fds pte.0) p
unfolding fd_at
fd_at-mapped va p pte h = ground arith

abbrev pub moved : Process → ℕ → ℕ → Process
moved p frame offset = record p {
  fds = update p.fds frame (record (p.fds frame) { fd_offset = offset });
}

set_offset-mapped :
    (va offset : ℕ) (p : Process) (pte : ℕ × ℕ)
    → p.vpt (va / 4096) ≡ some pte
    → set_offset va offset p ≡ ok tt (moved p pte.0 offset)
unfolding set_offset
set_offset-mapped va offset p pte h = ground arith

length-bytes_from : (n : ℕ) (bytes : ℕ → ℕ) (va : ℕ) → length (bytes_from n bytes va) ≡ n
unfolding bytes_from
length-bytes_from zero bytes va = refl
length-bytes_from (suc n) bytes va = ground (arith, length-bytes_from n bytes (va + 1))

-- A file that is open for reading, at the page `pte`.
pub record IsReadable (p : Process) (fdnum : ℕ) (pte : ℕ × ℕ) : Type 0 where
  pub number : fdnum < maxfd
  pub page : p.vpt (num2fd fdnum / 4096) ≡ some pte
  pub device : (p.fds pte.0).fd_dev_id ≡ 102
  pub mode : (p.fds pte.0).fd_omode ≢ o_wronly

-- The bytes that the file has left for a read of `n` bytes.
abbrev pub left : Filefd → ℕ → ℕ
left f n = min n (file_size f - f.fd_offset)

fd_lookup-mapped :
    (p : Process) (fdnum : ℕ) (pte : ℕ × ℕ)
    → IsReadable p fdnum pte
    → fd_lookup fdnum p ≡ ok (num2fd fdnum) p
unfolding fd_lookup is_mapped
fd_lookup-mapped p fdnum pte r =
    let small : leb maxfd fdnum ≡ false = ground (arith, r.number) in
    let page = r.page in rw small (ground arith)

file_read-left :
    (va n : ℕ) (p : Process) (pte : ℕ × ℕ)
    → p.vpt (va / 4096) ≡ some pte
    → (p.fds pte.0).fd_offset + n < 2 ^ 32
    → file_read va n (p.fds pte.0).fd_offset p
      ≡ ok (bytes_from (left (p.fds pte.0) n) p.bytes (fd2data va + (p.fds pte.0).fd_offset)) p
unfolding file_read bytes_from
file_read-left va n p pte page small =
    let f : Filefd = p.fds pte.0 in
    let wrap : (f.fd_offset + n) % 2 ^ 32 ≡ f.fd_offset + n = omega (arith, small) in
    rw (fd_at-mapped va p pte page, wrap)
      (elim (Bool-cases (ltb (file_size f) f.fd_offset)) [
        | inl past ↦ let none_left : left f n ≡ 0 = ground arith in rw (past, none_left) refl
        | inr before ↦ elim (Bool-cases (ltb (file_size f) (f.fd_offset + n))) [
          | inl cut ↦
              let rest : left f n ≡ file_size f - f.fd_offset = ground arith in
              rw (before, cut, rest) refl
          | inr whole ↦ let all : left f n ≡ n = ground arith in rw (before, whole, all) refl
        ]
      ])

-- The next bytes of the file, and the state behind them.
abbrev pub next_bytes : Process → ℕ → ℕ × ℕ → ℕ → List ℕ
next_bytes p fdnum pte n =
    bytes_from (left (p.fds pte.0) n) p.bytes (fd2data (num2fd fdnum) + (p.fds pte.0).fd_offset)

abbrev pub behind : Process → ℕ × ℕ → ℕ → Process
behind p pte n =
    if left (p.fds pte.0) n == 0
    then p
    else moved p pte.0 ((p.fds pte.0).fd_offset + left (p.fds pte.0) n)

-- The device of files; only its reads matter here.
module _ (dev_write : ℕ → List ℕ → ℕ → Cmd Process ℕ) (dev_close : ℕ → Cmd Process (Unit {0}))
    (dev_stat : ℕ → Stat → Cmd Process Stat) (devs : List Dev) where
  abbrev pub devices : List Dev
  devices =
      record {
        dev_id = 102;
        dev_read = file_read;
        dev_write = dev_write;
        dev_close = dev_close;
        dev_stat = dev_stat;
      }
      ∷ devs

  module _ (p : Process) (fdnum : ℕ) (pte : ℕ × ℕ) (r : IsReadable p fdnum pte) (n : ℕ)
      (small : (p.fds pte.0).fd_offset + n < 2 ^ 32) (counted : n < 2 ^ 31) where
    pub read-left : read devices fdnum n p ≡ ok (next_bytes p fdnum pte n) (behind p pte n)
    unfolding read dev_lookup lookup_from when is_positive
    read-left =
        let f : Filefd = p.fds pte.0 in
        let file : (102 == f.fd_dev_id) ≡ true = ground (arith, r.device) in
        let readable : (f.fd_omode == o_wronly) ≡ false = ground (arith, r.mode) in
        let at = fd_at-mapped (num2fd fdnum) p pte r.page in
        let got = length-bytes_from (left f n) p.bytes (fd2data (num2fd fdnum) + f.fd_offset) in
        rw
          (
            fd_lookup-mapped p fdnum pte r,
            at,
            file,
            readable,
            file_read-left (num2fd fdnum) n p pte r.page small,
            at,
            got,
          )
          (elim (Bool-cases (left f n == 0)) [
            | inl end ↦
                let no : (ltb 0 (left f n) && ltb (left f n) (2 ^ 31)) ≡ false = ground arith in
                rw (no, end) refl
            | inr more ↦
                let yes : (ltb 0 (left f n) && ltb (left f n) (2 ^ 31)) ≡ true =
                  ground (arith, counted) in
                let wrap : (f.fd_offset + left f n) % 2 ^ 32 ≡ f.fd_offset + left f n =
                  omega (arith, small) in
                rw
                  (
                    yes,
                    more,
                    wrap,
                    set_offset-mapped (num2fd fdnum) (f.fd_offset + left f n) p pte r.page,
                  )
                  refl
          ])

  -- At the end of the file, or with nothing wanted.
  module _ (q : Process) (fdnum : ℕ) (pte : ℕ × ℕ) (r : IsReadable q fdnum pte) where
    readn_from-end :
        (rounds : ℕ) (so_far : List ℕ) (n : ℕ)
        → n ≤ rounds
        → (q.fds pte.0).fd_offset + n < 2 ^ 32
        → n < 2 ^ 31
        → left (q.fds pte.0) n ≡ 0
        → readn_from devices rounds fdnum so_far n q ≡ ok so_far q
    unfolding readn_from bytes_from is_negative
    readn_from-end zero so_far n le small counted end = refl
    readn_from-end (suc rounds) so_far n le small counted end = elim (Bool-cases (n == 0)) [
      | inl nothing ↦ rw nothing refl
      | inr some_left ↦ rw (some_left, read-left q fdnum pte r n small counted, end) refl
    ]

  module _ (p : Process) (fdnum : ℕ) (pte : ℕ × ℕ) (r : IsReadable p fdnum pte) (n : ℕ)
      (small : (p.fds pte.0).fd_offset + n < 2 ^ 32) (counted : n < 2 ^ 31) where
    moved-IsReadable : (offset : ℕ) → IsReadable (moved p pte.0 offset) fdnum pte
    moved-IsReadable offset = record {
      number = r.number;
      page = r.page;
      device = let d = r.device in ground arith;
      mode =
          let same : ((moved p pte.0 offset).fds pte.0).fd_omode ≡ (p.fds pte.0).fd_omode =
            ground arith in
          λ z. r.mode (sym same ∙ z);
    }

    readn_from-next :
        (rounds : ℕ)
        → n ≤ rounds
        → readn_from devices rounds fdnum [] n p ≡ ok (next_bytes p fdnum pte n) (behind p pte n)
    unfolding readn_from bytes_from is_negative
    readn_from-next zero le =
        let none_left : left (p.fds pte.0) n ≡ 0 = omega (arith, le) in rw none_left refl
    readn_from-next (suc rounds) le = elim (Bool-cases (left (p.fds pte.0) n == 0)) [
      | inl end ↦
          let z : left (p.fds pte.0) n ≡ 0 = ground arith in
          rw (readn_from-end p fdnum pte r (suc rounds) [] n le small counted z, z) refl
      | inr more ↦
          let wanted : (n == 0) ≡ false = ground arith in
          let got =
            length-bytes_from (left (p.fds pte.0) n) p.bytes
              (fd2data (num2fd fdnum) + (p.fds pte.0).fd_offset) in
          let count : leb (2 ^ 31) (left (p.fds pte.0) n) ≡ false = ground (arith, counted) in
          rw (wanted, read-left p fdnum pte r n small counted, got, count, more)
            (let q : Process = moved p pte.0 ((p.fds pte.0).fd_offset + left (p.fds pte.0) n) in
              let offset : (q.fds pte.0).fd_offset
                  ≡ (p.fds pte.0).fd_offset + left (p.fds pte.0) n =
                ground arith in
              let size : file_size (q.fds pte.0) ≡ file_size (p.fds pte.0) = ground arith in
              let most : n - left (p.fds pte.0) n ≤ rounds = ground (arith, le) in
              let near : (q.fds pte.0).fd_offset + (n - left (p.fds pte.0) n) < 2 ^ 32 =
                omega (arith, offset, small) in
              let end : left (q.fds pte.0) (n - left (p.fds pte.0) n) ≡ 0 =
                omega (arith, offset, size) in
              readn_from-end q fdnum pte
                (moved-IsReadable ((p.fds pte.0).fd_offset + left (p.fds pte.0) n)) rounds
                (next_bytes p fdnum pte n) (n - left (p.fds pte.0) n) most near
                (omega (arith, counted)) end)
    ]

    -- For a descriptor of the file device that is open for reading, whose offset and the bytes
    -- wanted stay below 2^32 together, and for fewer than 2^31 bytes: `read` and the loop
    -- `readn` give the same, the next bytes of the file, as many as wanted or left, and move the
    -- offset behind them.
    pub read-readn :
        (read devices fdnum n p ≡ ok (next_bytes p fdnum pte n) (behind p pte n))
        × (readn devices fdnum n p ≡ ok (next_bytes p fdnum pte n) (behind p pte n))
    unfolding readn
    read-readn = (read-left p fdnum pte r n small counted, readn_from-next n (omega arith))
