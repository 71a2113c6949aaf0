-- ===== src/Dns/Names.antt =====
-- What a query for a service of a peer is answered with, and that the address works.
use mynetwork.Common.{
  ℕ, ◌-◌, ◌≡◌, refl, ap, ◌∙◌, true, false, List, [], ◌∷◌, ◌++◌, Bytes, codes, bytes_eq,
  bytes_eq_refl, length, length-append, take, drop, has_suffix, trim_suffix, leb, split, split_free,
  split-append, IsFree, to_lower, get, to16, some, Outcome, ok, err, arith,
}
use mynetwork.Config.{PeerId, Peer, Config}
use mynetwork.Config.Ids.{mk_net_id, mk_service_id, mk_service_addr6}
use mynetwork.Config.Ids.Shape.{
  mk_service_addr6_parts, four_elems, two_elems, length-mk_net_id, length-mk_service_id,
}
use mynetwork.Svc.{ServiceNetwork, Event, serve, remote_service}
use mynetwork.Svc.Network.{port_active, ensure_listener}
use mynetwork.Svc.Network.Invariant.{IsCoherent}
use mynetwork.Svc.Network.Reach.{ensure_listener-remote}
use mynetwork.Dns.{
  aaaa, type_aaaa, DnsHost, domain_suffix, with_domain_suffix, mk_alias_record, mk_id_record6,
  answer_name, answer_node, answer_labels, answer_question, service_name,
}

take-append : (s t : Bytes) → take (length s) (s ++ t) ≡ s
take-append [] t = refl
take-append (b ∷ s) t = ap (λ l. b ∷ l) (take-append s t)

drop-append : (s t : Bytes) → drop (length s) (s ++ t) ≡ t
drop-append [] t = refl
drop-append (b ∷ s) t = drop-append s t

trim_suffix-append : (s t : Bytes) → trim_suffix (s ++ t) t ≡ s
unfolding trim_suffix has_suffix
trim_suffix-append s t =
    let cut : length (s ++ t) - length t ≡ length s = omega (arith, length-append s t) in
    let longer : leb (length t) (length (s ++ t)) ≡ true = ground (arith, length-append s t) in
    rw (longer, cut, drop-append s t, bytes_eq_refl t, take-append s t) refl

to16-mk_service_addr6 :
    (p : PeerId) (svc : Bytes) → to16 (mk_service_addr6 p svc) ≡ mk_service_addr6 p svc
unfolding to16
to16-mk_service_addr6 p svc =
    let (x, y, z, w, e) = four_elems (mk_net_id p) (length-mk_net_id p) in
    let (b, c, f) = two_elems (mk_service_id svc) (length-mk_service_id svc) in
    rw (mk_service_addr6_parts p svc, e, f) refl

module _ {T : Type 0} (h : DnsHost) (config : Config T) where
  -- The labels of a query for a service of a node.
  labels :
      (svc node_name : Bytes)
      → IsFree b'.' svc
      → IsFree b'.' node_name
      → split b'.' (
          trim_suffix
            ((svc ++ b'.' ∷ node_name) ++ (codes "." ++ domain_suffix config))
            (codes "." ++ domain_suffix config))
        ≡ svc ∷ node_name ∷ []
  labels svc node_name free_svc free_node =
      ap (split b'.')
        (trim_suffix-append (svc ++ b'.' ∷ node_name) (codes "." ++ domain_suffix config))
      ∙ split-append b'.' svc node_name free_svc
      ∙ ap (λ l. svc ∷ l) (split_free b'.' node_name free_node)

  answer_question-labels :
      (name : Bytes)
      → answer_question h config (record { name = name; qtype = type_aaaa })
        ≡ answer_labels h config (split b'.' (trim_suffix name (codes "." ++ domain_suffix config)))
  unfolding answer_question
  answer_question-labels name = refl

  mk_id_record6-service :
      (p : PeerId) (b : ℕ) (svc addr : Bytes)
      → mk_id_record6 h config p (b ∷ svc) addr
        ≡ aaaa
            (with_domain_suffix config (service_name (b ∷ svc) (h.cid p)))
            86400
            (mk_service_addr6 p (b ∷ svc))
  unfolding mk_id_record6
  mk_id_record6-service p b svc addr =
      ap (aaaa (with_domain_suffix config (service_name (b ∷ svc) (h.cid p))) 86400)
        (to16-mk_service_addr6 p (b ∷ svc))

  answer_node-service :
      (svc : Bytes) (b : ℕ) (node_name m : Bytes) (p : Peer)
      → h.peer_decode node_name ≡ err m
      → bytes_eq (to_lower h.unicode_lower node_name) (to_lower h.unicode_lower h.hostname) ≡ false
      → get config.peer_lookup.by_name (to_lower h.unicode_lower node_name) ≡ some p
      → (name : Bytes) × (answer_node h config (b ∷ svc) node_name
          ≡ ok (
              mk_alias_record h config (to_lower h.unicode_lower node_name) (b ∷ svc) p.id
              ∷ aaaa name 86400 (mk_service_addr6 p.id (b ∷ svc))
              ∷ []))
  unfolding answer_node answer_name
  answer_node-service svc b node_name m p undecoded foreign found = (
    with_domain_suffix config (service_name (b ∷ svc) (h.cid p.id)),
    rw (answer_node, answer_name, undecoded, foreign, found)
        (ap
          (λ r.
            ok (
              mk_alias_record h config (to_lower h.unicode_lower node_name) (b ∷ svc) p.id
              ∷ r
              ∷ []))
          (mk_id_record6-service p.id b svc p.builtin_addr6)),
  )

  -- A query of type AAAA for a service and the name of a peer, in any case, that is no ID and not the
  -- name of this host, is answered with an alias and with the address that MkServiceAddr6 makes for the
  -- peer's ID and the service.
  answer_question-service :
      (svc : Bytes) (b : ℕ) (node_name m : Bytes) (p : Peer)
      → IsFree b'.' (b ∷ svc)
      → IsFree b'.' node_name
      → h.peer_decode node_name ≡ err m
      → bytes_eq (to_lower h.unicode_lower node_name) (to_lower h.unicode_lower h.hostname) ≡ false
      → get config.peer_lookup.by_name (to_lower h.unicode_lower node_name) ≡ some p
      → (name : Bytes) × (answer_question h config (record {
        name = ((b ∷ svc) ++ b'.' ∷ node_name) ++ (codes "." ++ domain_suffix config);
        qtype = type_aaaa;
      })
          ≡ some (
              ok (
                mk_alias_record h config (to_lower h.unicode_lower node_name) (b ∷ svc) p.id
                ∷ aaaa name 86400 (mk_service_addr6 p.id (b ∷ svc))
                ∷ [])))
  unfolding answer_labels
  answer_question-service svc b node_name m p free_svc free_node undecoded foreign found =
      let (name, e) = answer_node-service svc b node_name m p undecoded foreign found in
      (
        name,
        answer_question-labels
              (((b ∷ svc) ++ b'.' ∷ node_name) ++ (codes "." ++ domain_suffix config))
            ∙ ap (answer_labels h config) (labels (b ∷ svc) node_name free_svc free_node)
            ∙ ap some e,
      )

-- The address that a query for a service and the name of a peer is answered with is one where the
-- service network forwards to that peer: the answer is an alias and one AAAA record, and once a packet
-- for an idle port of that address arrives and the network stack listens, the listener forwards to the
-- peer, with the identifier of the service. This is for a name that is no ID and not the name of this
-- host, with the letters in any case, and for a peer whose network ID is its own and not this node's.
pub answer_question-ensure_listener :
    {T : Type 0} (h : DnsHost) (sn : ServiceNetwork T) (listen : Bytes → ℕ → Outcome (Unit {0}))
    (svc : Bytes) (b : ℕ) (node_name m : Bytes) (p : Peer) (port : ℕ)
    → IsFree b'.' (b ∷ svc)
    → IsFree b'.' node_name
    → h.peer_decode node_name ≡ err m
    → bytes_eq (to_lower h.unicode_lower node_name) (to_lower h.unicode_lower h.hostname) ≡ false
    → get sn.config.peer_lookup.by_name (to_lower h.unicode_lower node_name) ≡ some p
    → IsCoherent sn
    → bytes_eq (mk_net_id p.id) sn.self ≡ false
    → get sn.config.peer_lookup.by_net_id (mk_net_id p.id) ≡ some p
    → port_active sn (mk_service_addr6 p.id (b ∷ svc)) port ≡ false
    → listen (mk_service_addr6 p.id (b ∷ svc)) port ≡ ok tt
    → let config = sn.config in
      let addr = mk_service_addr6 p.id (b ∷ svc) in
      ((name : Bytes) × (answer_question h config (record {
        name = ((b ∷ svc) ++ b'.' ∷ node_name) ++ (codes "." ++ domain_suffix config);
        qtype = type_aaaa;
      })
          ≡ some (
              ok (
                mk_alias_record h config (to_lower h.unicode_lower node_name) (b ∷ svc) p.id
                ∷ aaaa name 86400 addr
                ∷ []))))
      × ((sn' : ServiceNetwork T) × (events : List Event) × (ensure_listener listen sn addr port
            ≡ ok (
              sn',
              true,
              events ++ serve addr port (remote_service p.id (mk_service_id (b ∷ svc))) ∷ [],
            )))
answer_question-ensure_listener h sn listen svc b node_name m p port free_svc free_node undecoded
      foreign found coherent other known idle listened =
    (
      answer_question-service h sn.config svc b node_name m p free_svc free_node undecoded foreign
          found,
      ensure_listener-remote listen sn p.id (b ∷ svc) p port coherent other known idle listened,
    )
