-- ===== src/Dns/Windows.antt =====
-- dns/server_windows.go: the name server on Windows. The names of the records and the domain are made
-- as in dns/server.go; what differs are the lifetimes, the addresses and the lookup of names.
pub mod Services
use mynetwork.Common.{
  ℕ, Bool, true, false, List, [], ◌∷◌, ◌++◌, Bytes, codes, bytes_eq, split, trim_suffix, get,
  Option, none, some, Outcome, ok, err, panic, fatal, if◌then◌else◌,
}
use mynetwork.Config.{PeerId, Peer, Config}
use mynetwork.Config.Lookup.{find_first}
use mynetwork.Dns.{
  Record, cname, a, aaaa, QType, type_a, type_aaaa, type_other, Question, DnsHost, domain_suffix,
  with_domain_suffix, service_name,
}

module _ {T : Type 0} (h : DnsHost) (config : Config T) where
  -- `mkAliasRecord`, which nothing calls.
  unfoldable pub windows_alias_record : Bytes → Bytes → PeerId → Record
  unfolding with_domain_suffix
  windows_alias_record alias svc p =
      cname (with_domain_suffix config (service_name svc alias)) 300
        (with_domain_suffix config (service_name svc (h.cid p)))

  unfoldable pub windows_record4 : PeerId → Bytes → Record
  unfolding with_domain_suffix
  windows_record4 p addr = a (with_domain_suffix config (h.cid p)) 300 addr

  unfoldable pub windows_record6 : PeerId → Bytes → Bytes → Record
  unfolding with_domain_suffix
  windows_record6 p svc addr =
      aaaa (with_domain_suffix config (service_name svc (h.cid p))) 300 addr

  -- The records of a node.
  unfoldable pub windows_records : PeerId → Bytes → Bytes → Bytes → List Record
  unfolding windows_record4 windows_record6
  windows_records p [] addr4 addr6 = windows_record4 p addr4 ∷ windows_record6 p [] addr6 ∷ []
  windows_records p (b ∷ svc) addr4 addr6 = windows_record6 p (b ∷ svc) addr6 ∷ []

  unfoldable pub windows_answer_id : Bytes → PeerId → List Record
  unfolding windows_records find_first bytes_eq
  windows_answer_id svc qpeer =
      if bytes_eq qpeer h.node_id
      then windows_records h.node_id svc config.builtin_addr4 config.builtin_addr6
      else (elim (find_first (λ p. bytes_eq p.id qpeer) config.peers) [
        | none ↦ []
        | some p ↦ windows_records p.id svc p.builtin_addr4 p.builtin_addr6
      ])

  -- The name is looked up as it was asked.
  unfoldable pub windows_answer_name : Bytes → Bytes → List Record
  unfolding windows_records get
  windows_answer_name svc node_name = elim (get config.peer_lookup.by_name node_name) [
    | none ↦ []
    | some p ↦ windows_records p.id svc p.builtin_addr4 p.builtin_addr6
  ]

  unfoldable pub windows_answer_node : Bytes → Bytes → Outcome (List Record)
  unfolding windows_answer_id windows_answer_name
  windows_answer_node svc node_name = elim (h.peer_decode node_name) [
    | ok qpeer ↦ ok (windows_answer_id svc qpeer)
    | err m ↦ ok (windows_answer_name svc node_name)
    | fatal ↦ fatal
    | panic ↦ panic
  ]

  -- `none` where the handler returns and writes no message.
  unfoldable pub windows_answer_labels : List Bytes → Option (Outcome (List Record))
  unfolding windows_answer_node
  windows_answer_labels (node_name ∷ []) = some (windows_answer_node [] node_name)
  windows_answer_labels (svc ∷ node_name ∷ []) = some (windows_answer_node svc node_name)
  windows_answer_labels _ = none

  unfoldable pub windows_answer_question : Question → Option (Outcome (List Record))
  unfolding windows_answer_labels domain_suffix split trim_suffix
  windows_answer_question q = elim q.qtype [
    | type_other ↦ some (ok [])
    | _ ↦
        windows_answer_labels (split b'.' (trim_suffix q.name (codes "." ++ domain_suffix config)))
  ]

  unfoldable pub windows_handle_query : List Question → List Record → Option (Outcome (List Record))
  unfolding windows_answer_question
  windows_handle_query [] answers = some (ok answers)
  windows_handle_query (q ∷ qs) answers = elim (windows_answer_question q) [
    | none ↦ none
    | some (ok rs) ↦ windows_handle_query qs (answers ++ rs)
    | some (err m) ↦ some (err m)
    | some fatal ↦ some fatal
    | some panic ↦ some panic
  ]
