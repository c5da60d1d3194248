-- ===== src/Serv/Examples.antt =====
-- The theorems about fs/serv.c at a server with an empty table, over a small disk.
use spring_os.Base.{◌≡◌, refl, none, [], arith}
use spring_os.Base.Run.{panic}
use spring_os.Fs.Examples.{disk}
use spring_os.Serv.{Server, zeros, serve_init, map_file, serve_request}
use spring_os.Serv.Unopened.{map_on, serve_request_unopened}

abbrev blank : Server
blank = record {
  disk = disk;
  opentab = λ i. record { o_file = none; o_fileid = 0; o_mode = 0 };
  pageref = λ i. 0;
  filefds = λ i. zeros;
  replies = [];
}

serve_request_unopened_example : serve_request 5 (map_file 7 0) (serve_init blank) ≡ panic
serve_request_unopened_example =
    serve_request_unopened blank 7 (omega arith) refl refl 5 (map_file 7 0) (map_on (omega arith))
