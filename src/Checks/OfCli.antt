-- ===== src/Checks/OfCli.antt =====
-- An instance of init.
use mynetwork.Common.{◌≡◌, refl, sym, ap, ◌∙◌, [], ◌∷◌, ◌++◌, Bytes, codes, none, ok, ok-injective}
use mynetwork.Config.Read.{Decoders, read_addresses, read}
use mynetwork.Config.Read.Plain.{lone_config}
use mynetwork.Config.ListRanger.{list_ranger}
use mynetwork.Cli.{Tools, default_addresses, first_config, init_run}
use mynetwork.Cli.FirstRead.{FileLaws, init_run-read}

-- One file, whose text is the key.
abbrev one_file : Tools Bytes
one_file = record {
  generate_key_pair = ok (codes "k");
  marshal_private_key = λ key. ok key;
  multibase_encode = λ s. codes "z" ++ s;
  marshal_indent = λ c. ok c.private_key;
  dir = λ path. codes "/etc";
  mkdir_all = λ w path. (w, none);
  create = λ w path. ([], none);
  write_to = λ w path out. (out, none);
  close_file = λ w path. (w, none);
}

drop_first : Bytes → Bytes
drop_first [] = []
drop_first (c ∷ s) = s

abbrev of_file : Bytes → Decoders
of_file w = record {
  read_file = λ path. ok w;
  unmarshal_json = λ s. ok (first_config s);
  multibase_decode = λ s. ok (drop_first s);
  unmarshal_private_key = λ s. ok s;
  id_from_private_key = λ s. ok s;
  new_multiaddr = λ s. ok s;
  peer_decode = λ s. ok s;
  parse_cidr = λ s. ok (record { ip = s; mask = s });
}

one_file_laws : FileLaws one_file of_file
unfolding drop_first first_config
one_file_laws = record {
  file_back = λ w w1 w2 w3 path out created written closed.
      ap ok (sym (ap (λ r. r.0) written ∙ ap (λ r. r.0) closed));
  json_back = λ w s out e. ap (λ x. ok (first_config x)) (sym (ok-injective e));
  base_back = λ w s. refl;
  key_back = λ w key s e. sym e;
}

init_run-read_example :
    read list_ranger (λ s. s) (of_file (codes "zk")) (codes "/etc/c.json")
    ≡ ok (lone_config list_ranger (codes "/etc/c.json") (codes "k") (codes "k") default_addresses)
unfolding init_run read_addresses
init_run-read_example =
    init_run-read one_file of_file one_file_laws list_ranger (λ s. s) (codes "/etc/c.json") []
      (codes "zk") refl (codes "k") (codes "k") default_addresses refl refl refl
