-- ===== src/Cli.antt =====
-- cli/init.go: `InitRun`, which writes a first configuration. What it prints, and the file id.json that it
-- writes at the end for the other peers, are left out.
pub mod FirstRead
use mynetwork.Common.{
  List, [], ◌∷◌, Bytes, ◌>>=◌, codes, bytes_eq, Option, none, some, Outcome, ok, err, panic, fatal,
  if◌then◌else◌,
}
use mynetwork.Config.{SchemaConfig}

-- The keys, the encoders and the file system, whose state is W. A file is known by its path.
pub record Tools (W : Type 0) : Type 0 where
  pub generate_key_pair : Outcome Bytes
  pub marshal_private_key : Bytes → Outcome Bytes
  pub multibase_encode : Bytes → Bytes
  pub marshal_indent : SchemaConfig → Outcome Bytes
  pub dir : Bytes → Bytes
  pub mkdir_all : W → Bytes → W × Option Bytes
  pub create : W → Bytes → W × Option Bytes
  pub write_to : W → Bytes → Bytes → W × Option Bytes
  pub close_file : W → Bytes → W × Option Bytes

abbrev pub default_addresses : List Bytes
default_addresses =
    codes "/ip4/0.0.0.0/tcp/8001"
    ∷ codes "/ip4/0.0.0.0/udp/8001/quic-v1"
    ∷ codes "/ip6/::/tcp/8001"
    ∷ codes "/ip6/::/udp/8001/quic-v1"
    ∷ []

-- The configuration of a new key.
unfoldable pub first_config : Bytes → SchemaConfig
first_config private_key = record {
  listen_addresses = default_addresses;
  private_key = private_key;
  peers = [];
  services = [];
}

-- `checkErr` on a call's result.
unfoldable pub check_err : {A : Type 0} → Outcome A → Outcome A
check_err (ok x) = ok x
check_err (err message) = fatal
check_err panic = panic
check_err fatal = fatal

module _ {W : Type 0} (t : Tools W) where
  -- `checkErr` after a call that changes the file system.
  unfoldable pub checked : (W → W × Outcome (Unit {0})) → W × Option Bytes → W × Outcome (Unit {0})
  checked next (w, some e) = (w, fatal)
  checked next (w, none) = next w

  -- `f.Close`, and that nothing follows it here.
  unfoldable pub close : Bytes → W → W × Outcome (Unit {0})
  unfolding checked
  close path w = checked (λ w1. (w1, ok tt)) (t.close_file w path)

  -- `f.Write` and what follows.
  unfoldable pub write_out : Bytes → Bytes → W → W × Outcome (Unit {0})
  unfolding checked close
  write_out path out w = checked (close path) (t.write_to w path out)

  -- `os.Create` and what follows.
  unfoldable pub create_out : Bytes → Bytes → W → W × Outcome (Unit {0})
  unfolding checked write_out
  create_out path out w = checked (write_out path out) (t.create w path)

  -- `os.MkdirAll` and what follows.
  unfoldable pub save : Bytes → Bytes → W → W × Outcome (Unit {0})
  unfolding checked create_out
  save path out w = checked (create_out path out) (t.mkdir_all w (t.dir path))

  -- The key, and the text of the file with it; an error of a call ends the process.
  unfoldable pub first_text : Outcome Bytes
  unfolding first_config check_err
  first_text = do
    key ← check_err t.generate_key_pair
    key_bytes ← check_err (t.marshal_private_key key)
    check_err (t.marshal_indent (first_config (t.multibase_encode key_bytes)))

  -- `InitRun` from the text of the file on.
  unfoldable pub started : Bytes → W → Outcome Bytes → W × Outcome (Unit {0})
  unfolding save
  started path w (ok out) = save path out w
  started path w (err message) = (w, err message)
  started path w panic = (w, panic)
  started path w fatal = (w, fatal)

  -- `InitRun`, with the path of the configuration.
  unfoldable pub init_run : Bytes → W → W × Outcome (Unit {0})
  unfolding started first_text
  init_run path w = started path w first_text
