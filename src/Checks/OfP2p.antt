-- ===== src/Checks/OfP2p.antt =====
-- Instances of the theorems about the package p2p.
use mynetwork.Common.{
  ◌≡◌, refl, arith, [], ◌∷◌, ℕ, true, Bytes, codes, ok, none, some, bytes_eq, if◌then◌else◌, zero,
  suc, ◌+◌, ◌==◌, ◌≢◌, ◌∙◌, ap, ap₂, IsFree,
}
use mynetwork.P2p.Pex.{PexHost, pex_handler, request_pex}
use mynetwork.P2p.Pex.RoundTrip.{HostLaws, concat, known_addrs, request_pex-pex_handler}
use mynetwork.Checks.OfConfig.{alice, bob}

-- An ID written with letters: a byte n is n times a and then b.
unary : ℕ → Bytes → Bytes
unary zero rest = b'b' ∷ rest
unary (suc n) rest = b'a' ∷ unary n rest

pub written : Bytes → Bytes
written [] = []
written (n ∷ id) = unary n (written id)

pub read_back : ℕ → Bytes → Bytes
read_back n [] = []
read_back n (c ∷ rest) =
    let more = read_back (suc n) rest in
    let next = n ∷ read_back 0 rest in if c == b'a' then more else next

read_back-unary : (n m : ℕ) (rest : Bytes) → read_back m (unary n rest) ≡ (n + m) ∷ read_back 0 rest
unfolding unary read_back
read_back-unary zero m rest = ap (λ k. k ∷ read_back 0 rest) (omega arith)
read_back-unary (suc n) m rest =
    read_back-unary n (suc m) rest ∙ ap (λ k. k ∷ read_back 0 rest) (omega arith)

read_back-written : (id : Bytes) → read_back 0 (written id) ≡ id
unfolding written read_back
read_back-written [] = refl
read_back-written (n ∷ id) =
    read_back-unary n 0 (written id)
    ∙ ap₂ (λ (k : ℕ) (l : Bytes). k ∷ l) (omega arith) (read_back-written id)

unary-IsFree :
    (sep n : ℕ) (rest : Bytes)
    → b'a' ≢ sep
    → b'b' ≢ sep
    → IsFree sep rest
    → IsFree sep (unary n rest)
unfolding unary
unary-IsFree sep zero rest no_a no_b h = (no_b, h)
unary-IsFree sep (suc n) rest no_a no_b h = (no_a, unary-IsFree sep n rest no_a no_b h)

written-IsFree : (sep : ℕ) (id : Bytes) → b'a' ≢ sep → b'b' ≢ sep → IsFree sep (written id)
unfolding written
written-IsFree sep [] no_a no_b = tt
written-IsFree sep (n ∷ id) no_a no_b =
    unary-IsFree sep n (written id) no_a no_b (written-IsFree sep id no_a no_b)

-- The peer store has the address x for every peer.
abbrev pub one_host : PexHost
one_host = record {
  id_string = written;
  peer_decode = λ s. ok (read_back 0 s);
  new_multiaddr = λ s. ok s;
  addrs = λ id. codes "x" ∷ [];
}

pub one_host-HostLaws : HostLaws one_host
one_host-HostLaws = record {
  id_part = λ id. record {
    no_bar = written-IsFree b'|' id (λ e. omega (arith, e)) (λ e. omega (arith, e));
    no_end = written-IsFree b'\n' id (λ e. omega (arith, e)) (λ e. omega (arith, e));
  };
  id_back = λ id. ap ok (read_back-written id);
  addr_part = λ id. (
    record { no_bar = ((λ e. omega (arith, e)), tt); no_end = ((λ e. omega (arith, e)), tt) },
    tt,
  );
  addr_back = λ id. (refl, tt);
}

request_pex-pex_handler_example :
    request_pex one_host
      (λ p. ok (
        concat
            (pex_handler one_host
              (bob ∷ alice ∷ [])
              (codes "QmA")
              (some (codes "r"))
              (λ l. true)).0,
        none,
      ))
      (codes "QmS" ∷ [])
    ≡ ok (known_addrs one_host (bob ∷ alice ∷ []) (codes "QmA"))
unfolding bytes_eq
request_pex-pex_handler_example =
    request_pex-pex_handler one_host one_host-HostLaws (bob ∷ alice ∷ []) (codes "QmA")
      (codes "QmS") [] refl
