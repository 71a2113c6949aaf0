-- ===== src/Rpc/Server/Adding.antt =====
-- What `AddPeer` of the RPC service admits, and what it leaves behind.
use mynetwork.Common.{
  ◌≡◌, ◌≢◌, ◌↔◌, refl, sym, ap, ◌∙◌, subst, suc, Bool, true, false, List, [], ◌∷◌, ◌++◌, Bytes,
  bytes_eq, bytes_eq_iff, is_some, Outcome, Outcome-cases, is_ok, ok, All, All-mono, arith,
  Bool-cases, inl, inr, ◌⊎◌, get_last?-append, cidr_mask,
}
use mynetwork.Config.{PeerId, Peer, Ranger}
use mynetwork.Config.Ids.{mk_builtin_addr4, mk_builtin_addr6}
use mynetwork.Config.Lookup.{find_first, find_peer, find_peer_by_name}
use mynetwork.Config.Update.{mk_peer, add_peer}
use mynetwork.Config.Consistency.{IsConsistent, add_peer-IsIndexed}
use mynetwork.Rpc.{AddPeerArgs, AddPeerReply, route_option, Externals, Daemon}
use mynetwork.Rpc.Server.{apply_option, admit, add_peer_call}

-- No peer of the list has the ID, and none has the name.
abbrev pub IsNew : List Peer → PeerId → Bytes → Type 0
IsNew ps id name = All (λ p. (p.id ≢ id) × (p.name ≢ name)) ps

-- What a request must satisfy.
pub record IsAdmissible (x : Externals) (ps : List Peer) (args : AddPeerArgs) (id : PeerId)
    : Type 0 where
  pub named : args.name ≢ []
  pub given : args.id ≢ []
  pub decoded : x.peer_decode args.id ≡ ok id
  pub new : IsNew ps id args.name

-- No two peers have one ID or one name.
pub data IsUnique : List Peer → Type 0 where
  no_peers : IsUnique []
  one_more :
      {ps : List Peer} (p : Peer) → IsUnique ps → IsNew ps p.id p.name → IsUnique (ps ++ p ∷ [])

find_first-none :
    (test : Peer → Bool) (ps : List Peer)
    → is_some (find_first test ps) ≡ false
    → All (λ p. test p ≡ false) ps
unfolding find_first
find_first-none test [] h = tt
find_first-none test (p ∷ ps) h = elim (Bool-cases (test p)) [
  | inl hit ↦ absurd (ground (arith, hit))
  | inr miss ↦ (miss, find_first-none test ps (ground arith))
]

find_first_of_none :
    (test : Peer → Bool) (ps : List Peer)
    → All (λ p. test p ≡ false) ps
    → is_some (find_first test ps) ≡ false
unfolding find_first
find_first_of_none test [] h = refl
find_first_of_none test (p ∷ ps) (miss, h) = ground (arith, miss, find_first_of_none test ps h)

All-both : (P Q : Peer → Type 0) (ps : List Peer) → All P ps → All Q ps → All (λ p. P p × Q p) ps
All-both P Q [] h k = tt
All-both P Q (p ∷ ps) (a, h) (b, k) = ((a, b), All-both P Q ps h k)

-- The two searches of the handler find nothing exactly when the ID and the name are new.
searches-IsNew :
    (ps : List Peer) (id : PeerId) (name : Bytes)
    → is_some (find_peer ps id) ≡ false
    → is_some (find_peer_by_name ps name) ≡ false
    → IsNew ps id name
unfolding find_peer find_peer_by_name
searches-IsNew ps id name h k =
    All-both _ _ ps
      (All-mono _ ps (λ p miss e. ground (arith, bytes_eq_iff p.id id)) (find_first-none _ ps h))
      (All-mono _ ps (λ p miss e. ground (arith, bytes_eq_iff p.name name))
        (find_first-none _ ps k))

IsNew-searches :
    (ps : List Peer) (id : PeerId) (name : Bytes)
    → IsNew ps id name
    → (is_some (find_peer ps id) ≡ false) × (is_some (find_peer_by_name ps name) ≡ false)
unfolding find_peer find_peer_by_name
IsNew-searches ps id name h = (
  find_first_of_none _ ps (All-mono _ ps (λ p q. ground (arith, q.0, bytes_eq_iff p.id id)) h),
  find_first_of_none _ ps (All-mono _ ps (λ p q. ground (arith, q.1, bytes_eq_iff p.name name)) h),
)

abbrev pub is_success : Outcome AddPeerReply → Bool
is_success (ok reply) = reply.success
is_success _ = false

module _ {T : Type 0} (rg : Ranger T) (u : Bytes → Bytes) (x : Externals) (d : Daemon T) where
  -- The daemon after a peer has been admitted: its host routes are applied, and a rediscovery is
  -- asked for.
  abbrev pub admitted : Bytes → PeerId → Daemon T
  admitted name id = record {
    config = add_peer rg u d.config name id;
    applied =
        (d.applied
          ++ route_option (record { ip = mk_builtin_addr4 id; mask = cidr_mask 32 32 }) ∷ [])
        ++ route_option (record { ip = mk_builtin_addr6 id; mask = cidr_mask 128 128 }) ∷ [];
    rediscoveries = suc d.rediscoveries;
  }

  admit-admitted :
      (args : AddPeerArgs) (id : PeerId)
      → ((admit rg u x d args id).0 ≡ admitted args.name id)
        × (is_success (admit rg u x d args id).1 ≡ true)
  unfolding admit add_peer apply_option
  admit-admitted args id =
      rw (admit, get_last?-append d.config.peers (mk_peer args.name id)) (refl, refl)

  add_peer_call-undecoded :
      (args : AddPeerArgs)
      → bytes_eq args.name [] ≡ false
      → bytes_eq args.id [] ≡ false
      → is_ok (x.peer_decode args.id) ≡ false
      → (is_success (add_peer_call rg u x d args).1 ≡ false) × ((add_peer_call rg u x d args).0 ≡ d)
  unfolding add_peer_call
  add_peer_call-undecoded args named given bad =
      (ground (arith, named, given, bad), ground (arith, named, given, bad))

  -- `AddPeer` either refuses and changes nothing, or the request was admissible and the peer has been
  -- admitted, its host routes applied to the TUN device and a rediscovery asked for.
  pub add_peer_call-cases :
      (args : AddPeerArgs)
      → ((is_success (add_peer_call rg u x d args).1 ≡ false)
          × ((add_peer_call rg u x d args).0 ≡ d))
        ⊎ ((id : PeerId) × IsAdmissible x d.config.peers args id
            × (is_success (add_peer_call rg u x d args).1 ≡ true)
            × ((add_peer_call rg u x d args).0 ≡ admitted args.name id))
  unfolding add_peer_call
  add_peer_call-cases args = elim (Bool-cases (bytes_eq args.name [])) [
    | inl unnamed ↦ inl (ground (arith, unnamed), ground (arith, unnamed))
    | inr named ↦ elim (Bool-cases (bytes_eq args.id [])) [
      | inl ungiven ↦ inl (ground (arith, named, ungiven), ground (arith, named, ungiven))
      | inr given ↦ elim (Outcome-cases (x.peer_decode args.id)) [
        | inr bad ↦ inl (add_peer_call-undecoded args named given bad)
        | inl (id, decoded) ↦ elim (Bool-cases (is_some (find_peer d.config.peers id))) [
          | inl known ↦ inl (
            ground (arith, named, given, decoded, known),
            ground (arith, named, given, decoded, known),
          )
          | inr fresh ↦ elim (Bool-cases (is_some (find_peer_by_name d.config.peers args.name))) [
            | inl taken ↦ inl (
              ground (arith, named, given, decoded, fresh, taken),
              ground (arith, named, given, decoded, fresh, taken),
            )
            | inr free ↦
                let r : add_peer_call rg u x d args ≡ admit rg u x d args id =
                  ground (arith, named, given, decoded, fresh, free) in
                let (after, done) = admit-admitted args id in
                inr (
                  id,
                  record {
                    named = λ e. ground (arith, named, bytes_eq_iff args.name []);
                    given = λ e. ground (arith, given, bytes_eq_iff args.id []);
                    decoded = decoded;
                    new = searches-IsNew d.config.peers id args.name fresh free;
                  },
                  ap (λ t. is_success t.1) r ∙ done,
                  ap (λ t. t.0) r ∙ after,
                )
          ]
        ]
      ]
    ]
  ]

  admissible-success :
      (args : AddPeerArgs) (id : PeerId)
      → IsAdmissible x d.config.peers args id
      → is_success (add_peer_call rg u x d args).1 ≡ true
  unfolding add_peer_call
  admissible-success args id h =
      let (fresh, free) = IsNew-searches d.config.peers id args.name h.new in
      let named : bytes_eq args.name [] ≡ false =
        ground (arith, h.named, bytes_eq_iff args.name []) in
      let given : bytes_eq args.id [] ≡ false = ground (arith, h.given, bytes_eq_iff args.id []) in
      let r : add_peer_call rg u x d args ≡ admit rg u x d args id =
        ground (arith, named, given, h.decoded, fresh, free) in
      ap (λ t. is_success t.1) r ∙ (admit-admitted args id).1

  -- `AddPeer` reports success exactly for the requests that have a name and an ID that decodes, where
  -- no peer has that ID or exactly that name.
  pub add_peer_call-success_iff :
      (args : AddPeerArgs)
      → (is_success (add_peer_call rg u x d args).1 ≡ true)
        ↔ ((id : PeerId) × IsAdmissible x d.config.peers args id)
  add_peer_call-success_iff args = (to, λ (id, h). admissible-success args id h)
    where
      to :
          is_success (add_peer_call rg u x d args).1 ≡ true
          → (id : PeerId) × IsAdmissible x d.config.peers args id
      to succeeded = elim (add_peer_call-cases args) [
        | inl (no_success, same) ↦ absurd (cc (succeeded, no_success))
        | inr (id, h, done, after) ↦ (id, h)
      ]

  -- Every call of `AddPeer`, whatever its arguments, keeps the IDs and the names of the peers
  -- different from each other, and the three lookup tables consistent with the list of peers: in the table
  -- by route, each peer's two host routes have been inserted.
  pub add_peer_call-IsUnique :
      (args : AddPeerArgs)
      → IsUnique d.config.peers
      → IsConsistent rg u d.config
      → let cfg = (add_peer_call rg u x d args).0.config in
        IsUnique cfg.peers × IsConsistent rg u cfg
  add_peer_call-IsUnique args unique indexed = elim (add_peer_call-cases args) [
    | inl (refused, same) ↦ subst Kept (sym same) (unique, indexed)
    | inr (id, h, welcomed, after) ↦
        let (still, appended) = add_peer-IsIndexed rg u d.config args.name id indexed in
        subst Kept (sym after) (
          subst IsUnique (sym appended) (IsUnique.one_more (mk_peer args.name id) unique h.new),
          still,
        )
  ]
    where
      Kept : Daemon T → Type 0
      Kept d' = IsUnique d'.config.peers × IsConsistent rg u d'.config
