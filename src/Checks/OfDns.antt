-- ===== src/Checks/OfDns.antt =====
-- Instances of the theorems about the name server.
use mynetwork.Common.{
  ◌≡◌, refl, arith, ◌++◌, [], ◌∷◌, true, List, Bytes, codes, ok, err, some, to_lower, get, bytes_eq,
  none, subst, Bool-cases, inl, inr, All,
}
use mynetwork.Config.{RouteTableEntry, Config, Peer}
use mynetwork.Config.Ids.{mk_net_id, mk_service_id, mk_service_addr6, mk_builtin_addr6}
use mynetwork.Svc.{ServiceNetwork, Event, serve, remote_service}
use mynetwork.Svc.Network.{ensure_listener}
use mynetwork.Dns.{
  with_domain_suffix, DnsHost, aaaa, type_aaaa, domain_suffix, mk_alias_record, answer_question,
}
use mynetwork.Dns.Windows.{
  windows_answer_node, windows_answer_name, windows_records, windows_record6,
}
use mynetwork.Dns.Windows.Services.{LeadsOutside, windows_answer_node-service}
use mynetwork.Dns.Names.{answer_question-ensure_listener}
use mynetwork.Checks.OfConfig.{keep, bob}
use mynetwork.Checks.OfSvc.{network, listening, network-IsCoherent}

abbrev dns_host : DnsHost
dns_host = record {
  cid = keep;
  peer_decode = λ s. err (codes "no ID");
  node_id = codes "QmA";
  hostname = codes "alice";
  unicode_lower = keep;
}

-- The service network of alice, who knows bob by name.
abbrev named : ServiceNetwork (List RouteTableEntry)
named = record network {
  config = record (network.config) {
    peer_lookup = record {
      by_route = [];
      by_name = (codes "bob", bob) ∷ [];
      by_net_id = (mk_net_id (codes "QmB"), bob) ∷ [];
    };
  };
}

answer_question-ensure_listener_example :
    ((name : Bytes) × (answer_question dns_host named.config (record {
      name = (codes "web" ++ b'.' ∷ codes "Bob") ++ (codes "." ++ domain_suffix named.config);
      qtype = type_aaaa;
    })
        ≡ some (
            ok (
              mk_alias_record dns_host named.config
                (to_lower keep (codes "Bob"))
                (codes "web")
                (codes "QmB")
              ∷ aaaa name 86400 (mk_service_addr6 (codes "QmB") (codes "web"))
              ∷ []))))
    × ((sn' : ServiceNetwork (List RouteTableEntry)) × (events : List Event) × (ensure_listener
            listening named
            (mk_service_addr6 (codes "QmB") (codes "web"))
            80
          ≡ ok (
            sn',
            true,
            events
                ++ serve
                    (mk_service_addr6 (codes "QmB") (codes "web"))
                    80
                    (remote_service (codes "QmB") (mk_service_id (codes "web")))
                  ∷ [],
          )))
unfolding bytes_eq to_lower get mk_net_id mynetwork.Svc.Network.port_active
answer_question-ensure_listener_example =
    answer_question-ensure_listener dns_host named listening (codes "eb") b'w' (codes "Bob")
      (codes "no ID") bob 80
      ((λ e. omega (arith, e)), ((λ e. omega (arith, e)), ((λ e. omega (arith, e)), tt)))
      ((λ e. omega (arith, e)), ((λ e. omega (arith, e)), ((λ e. omega (arith, e)), tt))) refl refl
      refl (record { agree = network-IsCoherent.agree }) refl refl refl refl

abbrev built : Config (List RouteTableEntry)
built = record (network.config) {
  peers = bob ∷ [];
  builtin_addr6 = mk_builtin_addr6 (codes "QmA");
  peer_lookup = record { by_route = []; by_name = (codes "bob", bob) ∷ []; by_net_id = [] };
}

built_named :
    (name : Bytes) (p : Peer)
    → get built.peer_lookup.by_name name ≡ some p
    → p.builtin_addr6 ≡ mk_builtin_addr6 p.id
unfolding get
built_named name p e = elim (Bool-cases (bytes_eq (codes "bob") name)) [
  | inl same ↦
      let found : some bob ≡ some p = rw same at e in
      let equal : bob ≡ p = cc in subst (λ q. q.builtin_addr6 ≡ mk_builtin_addr6 q.id) equal refl
  | inr other ↦ let missing : none ≡ some p = rw other at e in absurd (cc missing)
]

windows_answer_node-service_example :
    All LeadsOutside
      (aaaa (with_domain_suffix built (codes "web.QmB")) 300 (mk_builtin_addr6 (codes "QmB")) ∷ [])
unfolding windows_answer_node windows_answer_name windows_records windows_record6 get bytes_eq
windows_answer_node-service_example =
    windows_answer_node-service dns_host built
      (record { own = refl; listed = (refl, tt); named = built_named }) b'w' (codes "eb")
      (codes "bob")
      (aaaa (with_domain_suffix built (codes "web.QmB")) 300 (mk_builtin_addr6 (codes "QmB")) ∷ [])
      refl
