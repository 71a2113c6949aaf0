-- ===== src/Checks/OfClient.antt =====
-- Instances and tests of the client of the RPC service.
use mynetwork.Common.{
  ◌≡◌, refl, sym, ap, true, false, [], ◌∷◌, ◌++◌, Bytes, codes, bytes_eq, none, some, ok, decimal,
  atoi, arith,
}
use mynetwork.Rpc.Client.{Calls, get_client, lock_path, write_port}
use mynetwork.Rpc.Client.Port.{get_client-write_port}

port_text : decimal 49152 ≡ codes "49152"
unfolding decimal
port_text = refl

negative_text : atoi (codes "-12") ≡ some (true, 12)
unfolding atoi
negative_text = refl

no_number : atoi (codes "12a") ≡ none
unfolding atoi
no_number = refl

-- The state is the text of the port file; a client is the address that it has reached.
abbrev one_server : Calls Bytes Bytes
one_server = record {
  scanner = record { parse_ip = λ s. []; unicode_trim = λ s. s; unicode_scan = λ s. none };
  temp_dir = codes "/tmp";
  join = λ dir file. dir ++ b'/' ∷ file;
  read_file = λ w path. (w, some w);
  write_file = λ w path text. (text, none);
  dial = λ w network address.
      (w, elim (bytes_eq address (codes "127.0.0.1:49152")) [ true ↦ some address | false ↦ none ]);
  sleep = λ w. w;
}

get_client-write_port_example :
    get_client one_server true (codes "ms0") (write_port one_server (codes "ms0") 49152 [])
    ≡ (codes "49152", ok (codes "127.0.0.1:49152"))
unfolding decimal mynetwork.Rpc.Client.local_address bytes_eq
get_client-write_port_example =
    get_client-write_port one_server
      (λ v v1 path text e. ap (λ x. (v1, some x)) (sym (ap (λ r. r.0) e))) (codes "ms0") 49152 []
      (codes "49152") (codes "49152") (codes "127.0.0.1:49152") (omega arith) refl refl
