-- ===== src/Config/Read/Result.antt =====
-- What a configuration that `Read` returns satisfies.
use mynetwork.Common.{
  ◌≡◌, refl, sym, ◌∙◌, ◌++◌, [], ◌∷◌, List, Bytes, Outcome, ok, bind_ok, ok-injective, subst, get,
  append-nil, append_assoc, arith, IpNet, cidr_mask, Outcome-cases, inl, inr,
}
use mynetwork.Config.{
  PeerId, Peer, Ranger, PeerLookup, Config, SchemaRoute, SchemaPeer, SchemaConfig,
}
use mynetwork.Config.Ids.{mk_builtin_addr4, mk_builtin_addr6}
use mynetwork.Config.Update.{mk_peer, index_peer}
use mynetwork.Config.Consistency.{IsIndexed, mk_peer-IsDerived, index_peer-IsIndexed}
use mynetwork.Config.Read.{Decoders, read_addresses, read_routes, read_peers, read_services, read}

-- Empty tables belong to an empty list of peers.
pub empty-IsIndexed : (u : Bytes → Bytes) → IsIndexed u [] [] []
unfolding get
empty-IsIndexed u = record {
  derived = tt;
  net_sound = λ k p e. absurd (cc);
  net_complete = tt;
  name_sound = λ k p e. absurd (cc);
  name_complete = tt;
}

-- The peers decode the identifiers of the file, in its order.
pub data Decoded (dec : Bytes → Outcome PeerId) : List SchemaPeer → List Peer → Type 0 where
  none_left : Decoded dec [] []
  one_more :
      {sp : SchemaPeer} {sps : List SchemaPeer} {ps : List Peer} (id : PeerId)
      → dec sp.id ≡ ok id
      → Decoded dec sps ps
      → Decoded dec (sp ∷ sps) (mk_peer sp.name id ∷ ps)

-- The routes of a peer in the file, parsed and inserted in order.
pub data RoutesOf {T : Type 0} (rg : Ranger T) (parse : Bytes → Outcome IpNet) (p : Peer)
    : List SchemaRoute → T → T → Type 0 where
  no_routes : {t : T} → RoutesOf rg parse p [] t t
  one_route :
      {r : SchemaRoute} {rs : List SchemaRoute} {t t' : T} (n : IpNet)
      → parse r.net ≡ ok n
      → RoutesOf rg parse p rs (rg.insert_entry t (record { net = n; target = p })) t'
      → RoutesOf rg parse p (r ∷ rs) t t'

-- The route table of the file: for each peer its routes, and then its two host routes, for the addresses
-- of its ID.
pub data TableOf {T : Type 0} (rg : Ranger T) (parse : Bytes → Outcome IpNet)
    : List SchemaPeer → List Peer → T → T → Type 0 where
  no_peers : {t : T} → TableOf rg parse [] [] t t
  one_peer :
      {sp : SchemaPeer} {sps : List SchemaPeer} {p : Peer} {ps : List Peer} {t t1 t' : T}
      → RoutesOf rg parse p sp.routes t t1
      → TableOf rg parse sps ps
          (rg.insert_entry
            (rg.insert_entry t1 (record {
              net = record { ip = mk_builtin_addr4 p.id; mask = cidr_mask 32 32 };
              target = p;
            }))
            (record {
              net = record { ip = mk_builtin_addr6 p.id; mask = cidr_mask 128 128 };
              target = p;
            }))
          t'
      → TableOf rg parse (sp ∷ sps) (p ∷ ps) t t'

module _ {T : Type 0} (rg : Ranger T) (u : Bytes → Bytes) (d : Decoders) where
  read_routes-RoutesOf :
      (p : Peer) (rs : List SchemaRoute) (t : T) {t' : T}
      → read_routes rg u d p rs t ≡ ok t'
      → RoutesOf rg d.parse_cidr p rs t t'
  unfolding read_routes
  read_routes-RoutesOf p [] t e =
      subst (RoutesOf rg d.parse_cidr p [] t) (ok-injective e) RoutesOf.no_routes
  read_routes-RoutesOf p (r ∷ rs) t e = elim (Outcome-cases (d.parse_cidr r.net)) [
    | inl (n, parsed) ↦ RoutesOf.one_route n parsed (
        read_routes-RoutesOf p rs (rg.insert_entry t (record { net = n; target = p }))
          (ground (arith, parsed)))
    | inr bad ↦ absurd (ground (arith, bad))
  ]

  read_peers-IsIndexed :
      (sps : List SchemaPeer) (ps : List Peer) (l : PeerLookup T) {qs : List Peer}
      {l' : PeerLookup T}
      → read_peers rg u d sps ps l ≡ ok (qs, l')
      → IsIndexed u ps l.by_name l.by_net_id
      → IsIndexed u qs l'.by_name l'.by_net_id
        × ((rs : List Peer) × (qs ≡ ps ++ rs)
            × Decoded d.peer_decode sps rs
            × TableOf rg d.parse_cidr sps rs l.by_route l'.by_route)
  unfolding read_peers index_peer
  read_peers-IsIndexed [] ps l {qs} {l'} e h =
      let same : ps ≡ qs = ground arith in
      let same_lookup : l ≡ l' = ground arith in
      rw (← same, ← same_lookup) (h, ([], sym (append-nil ps), Decoded.none_left, TableOf.no_peers))
  read_peers-IsIndexed (sp ∷ sps) ps l {qs} {l'} e h =
      let (id, decoded, e1) = bind_ok (d.peer_decode sp.id) _ e in
      let (t, routed, e2) =
        bind_ok (read_routes rg u d (mk_peer sp.name id) sp.routes l.by_route) _ e1 in
      let step =
        index_peer-IsIndexed rg u ps (mk_peer sp.name id) (record l { by_route = t }) h
          (mk_peer-IsDerived sp.name id) in
      let (ix, (rs, same, dec, table)) =
        read_peers-IsIndexed sps (ps ++ mk_peer sp.name id ∷ []) _ e2 step in
      (
        ix,
        (
          mk_peer sp.name id ∷ rs,
          same ∙ append_assoc ps _ rs,
          Decoded.one_more id decoded dec,
          TableOf.one_peer (read_routes-RoutesOf (mk_peer sp.name id) sp.routes l.by_route routed)
              table,
        ),
      )

  -- What `Read` promises of the configuration that it returns for a path.
  pub record IsReadFrom (path : Bytes) (cfg : Config T) : Type 0 where
    pub in_bytes : Bytes
    pub input : SchemaConfig
    pub file : d.read_file path ≡ ok in_bytes
    pub parsed : d.unmarshal_json in_bytes ≡ ok input
    pub peers_decoded : Decoded d.peer_decode input.peers cfg.peers
    pub key_bytes : Bytes
    pub key_text : d.multibase_decode input.private_key ≡ ok key_bytes
    pub key : d.unmarshal_private_key key_bytes ≡ ok cfg.private_key
    pub peer_id : PeerId
    pub own_id : d.id_from_private_key cfg.private_key ≡ ok peer_id
    pub own_addr4 : cfg.builtin_addr4 ≡ mk_builtin_addr4 peer_id
    pub own_addr6 : cfg.builtin_addr6 ≡ mk_builtin_addr6 peer_id
    pub own_path : cfg.path ≡ path
    pub indexed : IsIndexed u cfg.peers cfg.peer_lookup.by_name cfg.peer_lookup.by_net_id
    pub routed : TableOf rg d.parse_cidr input.peers cfg.peers rg.empty cfg.peer_lookup.by_route

  -- A configuration that `Read` returns comes from the parsed file at the path: its peers are those
  -- of the file, in order, with the decoded IDs and the addresses that belong to them; its private key is
  -- the decoded one of the file, and the node's own addresses are those of that key's ID; it remembers its
  -- path; its tables by name and by network ID are consistent with its peers; and its route table has been
  -- filled, peer by peer, with the parsed routes of the file and the two host routes of the peer.
  pub read-IsReadFrom :
      (path : Bytes) {cfg : Config T} → read rg u d path ≡ ok cfg → IsReadFrom path cfg
  unfolding read
  read-IsReadFrom path {cfg} e =
      let (in_bytes, e_in, e1) = bind_ok (d.read_file path) _ e in
      let (input, e_json, e2) = bind_ok (d.unmarshal_json in_bytes) _ e1 in
      let (key_bytes, e_key, e3) = bind_ok (d.multibase_decode input.private_key) _ e2 in
      let (pk, e_pk, e4) = bind_ok (d.unmarshal_private_key key_bytes) _ e3 in
      let (peer_id, e_id, e5) = bind_ok (d.id_from_private_key pk) _ e4 in
      let (addrs, e_addrs, e6) = bind_ok (read_addresses rg u d input.listen_addresses) _ e5 in
      let (t, e_ps, e7) = bind_ok (read_peers rg u d input.peers [] _) _ e6 in
      let (services, e_sv, e8) = bind_ok (read_services rg u d input.services []) _ e7 in
      let (ix, (rs, same, decoded, table)) =
        read_peers-IsIndexed input.peers [] _ e_ps (empty-IsIndexed u) in
      subst (IsReadFrom path) (ok-injective e8) (record {
        in_bytes = in_bytes;
        input = input;
        file = e_in;
        parsed = e_json;
        peers_decoded = subst (Decoded d.peer_decode input.peers) (sym same) decoded;
        key_bytes = key_bytes;
        key_text = e_key;
        key = e_pk;
        peer_id = peer_id;
        own_id = e_id;
        own_addr4 = refl;
        own_addr6 = refl;
        own_path = refl;
        indexed = ix;
        routed =
            subst (λ ps. TableOf rg d.parse_cidr input.peers ps rg.empty t.1.by_route) (sym same)
              table;
      })
