-- ===== src/Fd/Examples.antt =====
-- The theorems about user/lib/fd.c at an environment with one open file of five bytes, read from 2 on.
use spring_os.Base.{ℕ, ◌/◌, ◌≡◌, refl, true, none, some, [], List, ◌==◌, if◌then◌else◌, arith}
use spring_os.Base.Run.{Cmd, ok, err, no_disk, Ensures}
use spring_os.Serv.{Filefd}
use spring_os.Fd.{Process, Stat, fd_alloc, num2fd, read, readn, fdtable}
use spring_os.Fd.Least.{LeastFrom, NoneFree, fd_alloc-LeastFrom}
use spring_os.Fd.Dup.{dup}
use spring_os.Fd.Sharing.{Shared, dup-Shared}
use spring_os.Fd.Reading.{IsReadable, devices, next_bytes, behind, read-readn}

abbrev letter : Filefd
letter = record {
  fd_dev_id = 102;
  fd_offset = 2;
  fd_omode = 0;
  f_fileid = 1024;
  f_file = λ i. if i == 32 then 5 else 0;
}

abbrev reader : Process
reader = record {
  vpd = λ t. true;
  vpt = λ n. if n == fdtable / 4096 then some (7, 0) else none;
  fds = λ f. letter;
  bytes = λ va. va;
  memory = 9;
}

fd_alloc-LeastFrom_example :
    Ensures (LeastFrom 0 31 reader) (NoneFree 0 31 reader) (fd_alloc reader)
fd_alloc-LeastFrom_example = fd_alloc-LeastFrom reader

reader-IsReadable : IsReadable reader 0 (7, 0)
unfolding num2fd
reader-IsReadable = record {
  number = omega arith;
  page = refl;
  device = refl;
  mode = λ z. absurd (omega (arith, z));
}

-- The other operations of the device, which are not called.
abbrev no_write : ℕ → List ℕ → ℕ → Cmd Process ℕ
no_write fd sent offset p = err no_disk p

abbrev no_close : ℕ → Cmd Process (Unit {0})
no_close fd p = ok tt p

abbrev no_stat : ℕ → Stat → Cmd Process Stat
no_stat fd stat p = ok stat p

read-readn_example :
    (read (devices no_write no_close no_stat []) 0 10 reader
      ≡ ok (next_bytes reader 0 (7, 0) 10) (behind reader (7, 0) 10))
    × (readn (devices no_write no_close no_stat []) 0 10 reader
        ≡ ok (next_bytes reader 0 (7, 0) 10) (behind reader (7, 0) 10))
read-readn_example =
    read-readn no_write no_close no_stat [] reader 0 (7, 0) reader-IsReadable 10 (omega arith)
      (omega arith)

dup-Shared_example :
    Ensures (λ n r. (n ≡ 3) × Shared 0 3 (7, 0) reader r) (λ _ _. ⊥) (dup [] 0 3 reader)
dup-Shared_example =
    dup-Shared reader 0 3 (7, 0) (omega arith) (omega arith) (λ z. omega (arith, z)) refl refl
      (omega arith) [] refl
