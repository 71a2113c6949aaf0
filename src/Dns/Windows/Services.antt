-- ===== src/Dns/Windows/Services.antt =====
-- What the name server on Windows answers for the services of the peers.
use mynetwork.Common.{
  ℕ, ◌≡◌, refl, sym, ap, ◌∙◌, inl, inr, Bool, false, List, [], ◌∷◌, Bytes, bytes_eq, some, Outcome,
  ok, Option-cases, Bool-cases, ip_net_contains, cidr_mask, All, subst, if_both, err, fatal, panic,
  get, ok-injective,
}
use mynetwork.Config.{PeerId, Peer, Config}
use mynetwork.Config.Ids.{mk_builtin_addr6, mk_net_id}
use mynetwork.Config.Ids.Shape.{mk_builtin_addr6-mk_net_id, four_elems, length-mk_net_id}
use mynetwork.Config.Lookup.{find_first}
use mynetwork.Dns.{Record, cname, a, aaaa, DnsHost}
use mynetwork.Dns.Windows.{
  windows_record6, windows_records, windows_answer_id, windows_answer_name, windows_answer_node,
}
use mynetwork.Up.Routing.{network_range}

-- The address of a node is no address of the service network.
mk_builtin_addr6-network_range :
    (p : PeerId) → ip_net_contains network_range (mk_builtin_addr6 p) ≡ false
unfolding ip_net_contains cidr_mask
mk_builtin_addr6-network_range p =
    let (x, y, z, w, e) = four_elems (mk_net_id p) (length-mk_net_id p) in
    rw (mk_builtin_addr6-mk_net_id p, e) refl

-- The addresses of a peer are those that its ID gives.
IsBuilt : Peer → Type 0
IsBuilt p = p.builtin_addr6 ≡ mk_builtin_addr6 p.id

find_first-All :
    (test : Peer → Bool) (peers : List Peer) (p : Peer)
    → All IsBuilt peers
    → find_first test peers ≡ some p
    → IsBuilt p
unfolding find_first IsBuilt
find_first-All test [] p h e = absurd (cc e)
find_first-All test (q ∷ peers) p (built, h) e = elim (Bool-cases (test q)) [
  | inl found ↦
      let same : some q ≡ some p = rw found at e in
      let equal : q ≡ p = cc in subst IsBuilt equal built
  | inr other ↦ find_first-All test peers p h (rw other at e)
]

-- A record that leads out of the service network.
abbrev pub LeadsOutside : Record → Type 0
LeadsOutside (cname name ttl target) = Unit {0}
LeadsOutside (a name ttl addr) = Unit {0}
LeadsOutside (aaaa name ttl addr) = ip_net_contains network_range addr ≡ false

-- The configuration's own address and those of its peers, in the list and by name.
pub record HasBuilt {T : Type 0} (h : DnsHost) (config : Config T) : Type 0 where
  pub own : config.builtin_addr6 ≡ mk_builtin_addr6 h.node_id
  pub listed : All (λ p. p.builtin_addr6 ≡ mk_builtin_addr6 p.id) config.peers
  pub named :
      (name : Bytes) (p : Peer)
      → get config.peer_lookup.by_name name ≡ some p
      → p.builtin_addr6 ≡ mk_builtin_addr6 p.id

module _ {T : Type 0} (h : DnsHost) (config : Config T) (built : HasBuilt h config) where
  windows_records-service :
      (p : PeerId) (b : ℕ) (svc addr4 addr6 : Bytes)
      → addr6 ≡ mk_builtin_addr6 p
      → All LeadsOutside (windows_records h config p (b ∷ svc) addr4 addr6)
  unfolding windows_records windows_record6
  windows_records-service p b svc addr4 addr6 e =
      (ap (ip_net_contains network_range) e ∙ mk_builtin_addr6-network_range p, tt)

  windows_answer_id-service :
      (b : ℕ) (svc : Bytes) (qpeer : PeerId)
      → All LeadsOutside (windows_answer_id h config (b ∷ svc) qpeer)
  unfolding windows_answer_id IsBuilt
  windows_answer_id-service b svc qpeer =
      if_both (All LeadsOutside) (bytes_eq qpeer h.node_id)
        (windows_records-service h.node_id b svc config.builtin_addr4 config.builtin_addr6
          built.own)
        (elim (Option-cases (find_first (λ p. bytes_eq p.id qpeer) config.peers)) [
          | inl missing ↦ rw missing tt
          | inr (p, found) ↦ rw found (
              windows_records-service p.id b svc p.builtin_addr4 p.builtin_addr6
                (find_first-All _ config.peers p built.listed found))
        ])

  windows_answer_name-service :
      (b : ℕ) (svc node_name : Bytes)
      → All LeadsOutside (windows_answer_name h config (b ∷ svc) node_name)
  unfolding windows_answer_name
  windows_answer_name-service b svc node_name =
      elim (Option-cases (get config.peer_lookup.by_name node_name)) [
        | inl missing ↦
            let nothing : windows_answer_name h config (b ∷ svc) node_name ≡ [] =
              rw (windows_answer_name, missing) refl in
            subst (All LeadsOutside) (sym nothing) tt
        | inr (p, found) ↦
            let one : windows_answer_name h config (b ∷ svc) node_name
                ≡ windows_records h config p.id (b ∷ svc) p.builtin_addr4 p.builtin_addr6 =
              rw (windows_answer_name, found) refl in
            subst (All LeadsOutside) (sym one) (
              windows_records-service p.id b svc p.builtin_addr4 p.builtin_addr6
                (built.named node_name p found))
      ]

  decoded-service :
      (b : ℕ) (svc node_name : Bytes) (rs : List Record) (o : Outcome PeerId)
      → (let r : Outcome (List Record) = elim o [
        | ok qpeer ↦ ok (windows_answer_id h config (b ∷ svc) qpeer)
        | err m ↦ ok (windows_answer_name h config (b ∷ svc) node_name)
        | fatal ↦ fatal
        | panic ↦ panic
      ] in
          r ≡ ok rs)
      → All LeadsOutside rs
  decoded-service b svc node_name rs (ok qpeer) e =
      subst (All LeadsOutside) (ok-injective e) (windows_answer_id-service b svc qpeer)
  decoded-service b svc node_name rs (err m) e =
      subst (All LeadsOutside) (ok-injective e) (windows_answer_name-service b svc node_name)
  decoded-service b svc node_name rs fatal e = absurd (cc e)
  decoded-service b svc node_name rs panic e = absurd (cc e)

  -- On Windows, no answer to a query for a service, of the node itself or of a peer, by ID or by name,
  -- has an address in the range of the service network, so that no such address reaches a service. The
  -- IPv6 addresses of the configuration are those that MkBuiltinAddr6 makes of the IDs.
  pub windows_answer_node-service :
      (b : ℕ) (svc node_name : Bytes) (rs : List Record)
      → windows_answer_node h config (b ∷ svc) node_name ≡ ok rs
      → All LeadsOutside rs
  unfolding windows_answer_node
  windows_answer_node-service b svc node_name rs e =
      decoded-service b svc node_name rs (h.peer_decode node_name) e
