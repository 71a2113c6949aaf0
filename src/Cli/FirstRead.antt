-- ===== src/Cli/FirstRead.antt =====
-- What init has written can be read.
use mynetwork.Common.{
  ◌≡◌, refl, sym, ap, ◌∙◌, List, Bytes, Option, none, some, Outcome, ok, err, panic, fatal, bind_ok,
  ok-injective, subst,
}
use mynetwork.Config.{PeerId, Ranger}
use mynetwork.Config.Read.{Decoders, read_addresses, read}
use mynetwork.Config.Read.Plain.{lone_config, read-lone_config}
use mynetwork.Cli.{
  Tools, default_addresses, first_config, checked, close, write_out, create_out, save, first_text,
  check_err, started, init_run,
}

-- What the decoders give back of what the encoders made, for the file system in a state.
pub record FileLaws {W : Type 0} (t : Tools W) (d : W → Decoders) : Type 0 where
  pub file_back :
      (w w1 w2 w3 : W) (path out : Bytes)
      → t.create w path ≡ (w1, none)
      → t.write_to w1 path out ≡ (w2, none)
      → t.close_file w2 path ≡ (w3, none)
      → (d w3).read_file path ≡ ok out
  pub json_back :
      (w : W) (s out : Bytes)
      → t.marshal_indent (first_config s) ≡ ok out
      → (d w).unmarshal_json out ≡ ok (first_config s)
  pub base_back : (w : W) (s : Bytes) → (d w).multibase_decode (t.multibase_encode s) ≡ ok s
  pub key_back :
      (w : W) (key s : Bytes)
      → t.marshal_private_key key ≡ ok s
      → (d w).unmarshal_private_key s ≡ ok key

-- A call that `checkErr` lets pass.
check_err-ok : {A : Type 0} (o : Outcome A) {a : A} → check_err o ≡ ok a → o ≡ ok a
unfolding check_err
check_err-ok (ok x) e = e
check_err-ok (err message) e = absurd (cc e)
check_err-ok panic e = absurd (cc e)
check_err-ok fatal e = absurd (cc e)

module _ {W : Type 0} (t : Tools W) where
  checked-ok :
      (next : W → W × Outcome (Unit {0})) (r : W × Option Bytes) {w' : W}
      → checked t next r ≡ (w', ok tt)
      → (w1 : W) × (r ≡ (w1, none)) × (next w1 ≡ (w', ok tt))
  unfolding checked
  checked-ok next (w1, none) e = (w1, refl, e)
  checked-ok next (w1, some x) e = absurd (cc e)

  module _ (d : W → Decoders) (laws : FileLaws t d) where
    save-file_back :
        (path out : Bytes) (w : W) {w' : W}
        → save t path out w ≡ (w', ok tt)
        → (d w').read_file path ≡ ok out
    unfolding save create_out write_out close
    save-file_back path out w {w'} e =
        let (w1, made, e1) = checked-ok (create_out t path out) (t.mkdir_all w (t.dir path)) e in
        let (w2, created, e2) = checked-ok (write_out t path out) (t.create w1 path) e1 in
        let (w3, written, e3) = checked-ok (close t path) (t.write_to w2 path out) e2 in
        let (w4, closed, e4) = checked-ok (λ v. (v, ok tt)) (t.close_file w3 path) e3 in
        let same : w4 ≡ w' = ap (λ r. r.0) e4 in
        subst (λ v. (d v).read_file path ≡ ok out) same
          (laws.file_back w1 w2 w3 w4 path out created written closed)

    init_run-save :
        (path : Bytes) (w : W) (o : Outcome Bytes) {w' : W}
        → started t path w o ≡ (w', ok tt)
        → (out : Bytes) × (o ≡ ok out) × (save t path out w ≡ (w', ok tt))
    unfolding started
    init_run-save path w (ok out) e = (out, refl, e)
    init_run-save path w (err message) e = absurd (cc e)
    init_run-save path w panic e = absurd (cc e)
    init_run-save path w fatal e = absurd (cc e)

    -- When `InitRun` returns without an error and the decoders undo the encoders, `Read` of the path
    -- then gives the configuration of a node that knows no peers: the key that was generated, the
    -- addresses that belong to its ID, and what the four default listen addresses decode to.
    pub init_run-read :
        {T : Type 0} (rg : Ranger T) (u : Bytes → Bytes) (path : Bytes) (w w' : W)
        → init_run t path w ≡ (w', ok tt)
        → (key : Bytes) (id : PeerId) (addrs : List Bytes) → t.generate_key_pair ≡ ok key
        → (d w').id_from_private_key key ≡ ok id
        → read_addresses rg u (d w') default_addresses ≡ ok addrs
        → read rg u (d w') path ≡ ok (lone_config rg path key id addrs)
    unfolding init_run first_text first_config
    init_run-read rg u path w w' e key id addrs generated own decoded =
        let (out, text, saved) = init_run-save path w (first_text t) e in
        let (key1, e_key, e1) = bind_ok (check_err t.generate_key_pair) _ text in
        let same : key1 ≡ key = ok-injective (sym (check_err-ok _ e_key) ∙ generated) in
        let (key_bytes, e_bytes, e2) = bind_ok (check_err (t.marshal_private_key key1)) _ e1 in
        let marshalled : t.marshal_private_key key ≡ ok key_bytes =
          subst (λ k. t.marshal_private_key k ≡ ok key_bytes) same (check_err-ok _ e_bytes) in
        let file = save-file_back path out w saved in
        let json = laws.json_back w' (t.multibase_encode key_bytes) out (check_err-ok _ e2) in
        let base = laws.base_back w' key_bytes in
        let back = laws.key_back w' key key_bytes marshalled in
        read-lone_config rg u (d w') path out (t.multibase_encode key_bytes) key_bytes key id
          default_addresses addrs file json base back own decoded
