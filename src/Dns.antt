-- ===== src/Dns.antt =====
-- dns/server.go: the name server for the domain of the interface.
pub mod Address
pub mod Names
pub mod Windows
use mynetwork.Common.{
  ℕ, zero, suc, ◌+◌, ◌*◌, ◌%◌, bit_xor, Bool, true, false, not, List, [], ◌∷◌, ◌++◌, Bytes, codes,
  bytes_eq, split, trim_suffix, to_lower, get, get_or, set, to4, to16, Option, none, some, is_some,
  Outcome, ok, err, panic, fatal, if◌then◌else◌, map,
}
use mynetwork.Config.{PeerId, Peer, Config}
use mynetwork.Config.Ids.{mk_service_addr6}
use mynetwork.Config.Lookup.{find_first}

unfoldable pub domain_suffix : {T : Type 0} → Config T → Bytes
unfolding bytes_eq
domain_suffix config =
    if bytes_eq config.interface (codes "mynetwork")
    then codes "mynetwork."
    else config.interface ++ codes ".mynetwork."

unfoldable pub with_domain_suffix : {T : Type 0} → Config T → Bytes → Bytes
unfolding domain_suffix
with_domain_suffix config str = str ++ codes "." ++ domain_suffix config

-- The records, with their names, their lifetimes and what they hold.
pub data Record : Type 0 where
  cname : Bytes → ℕ → Bytes → Record
  a : Bytes → ℕ → Bytes → Record
  aaaa : Bytes → ℕ → Bytes → Record

pub data QType : Type 0 where
  type_a type_aaaa type_other : QType

pub record Question : Type 0 where
  pub name : Bytes
  pub qtype : QType

-- The text of the CID of an ID in base 36, the decoder of IDs, this node's ID and its host name.
pub record DnsHost : Type 0 where
  pub cid : PeerId → Bytes
  pub peer_decode : Bytes → Outcome PeerId
  pub node_id : PeerId
  pub hostname : Bytes
  pub unicode_lower : Bytes → Bytes

-- A name with the service in front, if there is one.
abbrev pub service_name : Bytes → Bytes → Bytes
service_name [] name = name
service_name (b ∷ svc) name = (b ∷ svc) ++ codes "." ++ name

module _ {T : Type 0} (h : DnsHost) (config : Config T) where
  unfoldable pub mk_alias_record : Bytes → Bytes → PeerId → Record
  unfolding with_domain_suffix
  mk_alias_record alias svc p =
      cname (with_domain_suffix config (service_name svc alias)) 0
        (with_domain_suffix config (service_name svc (h.cid p)))

  unfoldable pub mk_id_record4 : PeerId → Bytes → Record
  unfolding with_domain_suffix to4
  mk_id_record4 p addr = a (with_domain_suffix config (h.cid p)) 86400 (to4 addr)

  unfoldable pub mk_id_record6 : PeerId → Bytes → Bytes → Record
  unfolding with_domain_suffix to16 mk_service_addr6
  mk_id_record6 p [] addr = aaaa (with_domain_suffix config (h.cid p)) 86400 (to16 addr)
  mk_id_record6 p (b ∷ svc) addr =
      aaaa (with_domain_suffix config (service_name (b ∷ svc) (h.cid p))) 86400
        (to16 (mk_service_addr6 p (b ∷ svc)))

  -- The records of a node: its IPv4 address unless a service is asked for, and the IPv6 address.
  abbrev pub id_records : PeerId → Bytes → Bytes → Bytes → List Record
  id_records p [] addr4 addr6 = mk_id_record4 p addr4 ∷ mk_id_record6 p [] addr6 ∷ []
  id_records p (b ∷ svc) addr4 addr6 = mk_id_record6 p (b ∷ svc) addr6 ∷ []

  -- The two branches for a name: it is an ID, or the name of a host.
  unfoldable pub answer_id : Bytes → PeerId → List Record
  unfolding mk_id_record4 mk_id_record6 find_first bytes_eq
  answer_id svc qpeer =
      if bytes_eq qpeer h.node_id
      then id_records h.node_id svc config.builtin_addr4 config.builtin_addr6
      else (elim (find_first (λ p. bytes_eq p.id qpeer) config.peers) [
        | none ↦ []
        | some p ↦ id_records p.id svc p.builtin_addr4 p.builtin_addr6
      ])

  unfoldable pub answer_name : Bytes → Bytes → List Record
  unfolding mk_alias_record mk_id_record4 mk_id_record6 to_lower get bytes_eq
  answer_name svc node_name =
      let q_name = to_lower h.unicode_lower node_name in
      if bytes_eq q_name (to_lower h.unicode_lower h.hostname)
      then mk_alias_record q_name svc h.node_id
        ∷ id_records h.node_id svc config.builtin_addr4 config.builtin_addr6
      else (elim (get config.peer_lookup.by_name q_name) [
        | none ↦ []
        | some p ↦
            mk_alias_record q_name svc p.id ∷ id_records p.id svc p.builtin_addr4 p.builtin_addr6
      ])

  unfoldable pub answer_node : Bytes → Bytes → Outcome (List Record)
  unfolding answer_id answer_name
  answer_node svc node_name = elim (h.peer_decode node_name) [
    | ok qpeer ↦ ok (answer_id svc qpeer)
    | err m ↦ ok (answer_name svc node_name)
    | fatal ↦ fatal
    | panic ↦ panic
  ]

  -- The labels in front of the domain; `none` where the handler returns and writes no message.
  unfoldable pub answer_labels : List Bytes → Option (Outcome (List Record))
  unfolding answer_node
  answer_labels (node_name ∷ []) = some (answer_node [] node_name)
  answer_labels (svc ∷ node_name ∷ []) = some (answer_node svc node_name)
  answer_labels _ = none

  unfoldable pub answer_question : Question → Option (Outcome (List Record))
  unfolding answer_labels domain_suffix split trim_suffix
  answer_question q = elim q.qtype [
    | type_other ↦ some (ok [])
    | _ ↦ answer_labels (split b'.' (trim_suffix q.name (codes "." ++ domain_suffix config)))
  ]

  -- The handler: the answers to all questions, or no message.
  unfoldable pub handle_query : List Question → List Record → Option (Outcome (List Record))
  unfolding answer_question
  handle_query [] answers = some (ok answers)
  handle_query (q ∷ qs) answers = elim (answer_question q) [
    | none ↦ none
    | some (ok rs) ↦ handle_query qs (answers ++ rs)
    | some (err m) ↦ some (err m)
    | some fatal ↦ some fatal
    | some panic ↦ some panic
  ]

-- The loop that makes the server's address and port from the interface's name; the port is a uint16.
unfoldable pub server_addr : ℕ → Bytes → Bytes × ℕ → Bytes × ℕ
server_addr i [] s = s
server_addr i (b ∷ name) (addr, port) = server_addr (suc i) name (
  set addr (i % 3 + 1) (bit_xor (get_or addr (i % 3 + 1) 0) b),
  ((port + b) % 65536 % 40000 + 5000) % 65536,
)

abbrev pub start_addr : Bytes × ℕ
start_addr = (127 ∷ 80 ∷ 1 ∷ 53 ∷ [], 5380)
