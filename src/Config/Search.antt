-- ===== src/Config/Search.antt =====
-- What the searches over the peers find.
use mynetwork.Common.{
  ◌≡◌, sym, ◌∙◌, ap, ◌++◌, Bool, true, false, List, [], ◌∷◌, Option, none, some, Bytes, bytes_eq,
  bytes_eq_iff, bytes_eq_refl, inl, inr, ◌↔◌, All, Bool-cases, has_prefix, has_prefix-drop,
  has_prefix-append, trim_prefix, codes, drop, length,
}
use mynetwork.Config.{PeerId, Peer}
use mynetwork.Config.Lookup.{find_first, find_peer, find_peer_by_name, find_peer_by_cli_ref}

-- The first peer of a list with a property, or that there is none.
pub data FirstOf (P : Peer → Type 0) : List Peer → Option Peer → Type 0 where
  nowhere : {ps : List Peer} → All (λ p. ¬ P p) ps → FirstOf P ps none
  found :
      (before after : List Peer) {p : Peer}
      → All (λ q. ¬ P q) before
      → P p
      → FirstOf P (before ++ p ∷ after) (some p)

FirstOf-cons :
    {P : Peer → Type 0} {q : Peer} {ps : List Peer} {r : Option Peer}
    → ¬ P q
    → FirstOf P ps r
    → FirstOf P (q ∷ ps) r
FirstOf-cons {q} e (nowhere h) = FirstOf.nowhere (e, h)
FirstOf-cons {q} e (found before after h t) = FirstOf.found (q ∷ before) after (e, h) t

-- A test that decides a property finds the first peer with it.
find_first-FirstOf :
    (P : Peer → Type 0) (test : Peer → Bool) (ps : List Peer)
    → ((p : Peer) → (test p ≡ true) ↔ P p)
    → FirstOf P ps (find_first test ps)
unfolding find_first
find_first-FirstOf P test [] dec = FirstOf.nowhere tt
find_first-FirstOf P test (p ∷ ps) dec = elim (Bool-cases (test p)) [
  | inl passes ↦ rw passes (FirstOf.found [] ps tt ((dec p).0 passes))
  | inr fails ↦
      rw fails (FirstOf-cons (λ h. absurd (cc ((dec p).1 h))) (find_first-FirstOf P test ps dec))
]

-- `FindPeer` gives the first peer of the list with the ID, and nothing if there is none.
pub find_peer-FirstOf :
    (ps : List Peer) (id : PeerId) → FirstOf (λ p. p.id ≡ id) ps (find_peer ps id)
unfolding find_peer
find_peer-FirstOf ps id =
    find_first-FirstOf (λ p. p.id ≡ id) (λ p. bytes_eq p.id id) ps (λ p. bytes_eq_iff p.id id)

-- `FindPeerByName` does so for the name.
pub find_peer_by_name-FirstOf :
    (ps : List Peer) (name : Bytes) → FirstOf (λ p. p.name ≡ name) ps (find_peer_by_name ps name)
unfolding find_peer_by_name
find_peer_by_name-FirstOf ps name =
    find_first-FirstOf (λ p. p.name ≡ name) (λ p. bytes_eq p.name name) ps
      (λ p. bytes_eq_iff p.name name)

-- What a reference on the command line stands for: `@` and the whole name, or else the beginning of
-- a printed ID.
pub data Refers (id_string : PeerId → Bytes) (p : Peer) : Bytes → Type 0 where
  by_name : {needle : Bytes} → needle ≡ codes "@" ++ p.name → Refers id_string p needle
  by_id :
      {needle : Bytes} (rest : Bytes)
      → has_prefix needle (codes "@") ≡ false
      → id_string p.id ≡ needle ++ rest
      → Refers id_string p needle

module _ (id_string : PeerId → Bytes) (p : Peer) (needle : Bytes) where
  by_name_iff :
      has_prefix needle (codes "@") ≡ true
      → (bytes_eq p.name (trim_prefix needle (codes "@")) ≡ true) ↔ Refers id_string p needle
  unfolding trim_prefix
  by_name_iff h = (to, from)
    where
      to : bytes_eq p.name (trim_prefix needle (codes "@")) ≡ true → Refers id_string p needle
      to e =
          let whole : p.name ≡ drop 1 needle = (bytes_eq_iff _ _).0 (rw h at e) in
          Refers.by_name
            (has_prefix-drop needle (codes "@") h ∙ ap (λ t. codes "@" ++ t) (sym whole))

      from : Refers id_string p needle → bytes_eq p.name (trim_prefix needle (codes "@")) ≡ true
      from (by_name e) = rw e (bytes_eq_refl p.name)
      from (by_id rest h' e) = cc

  by_id_iff :
      has_prefix needle (codes "@") ≡ false
      → (has_prefix (id_string p.id) needle ≡ true) ↔ Refers id_string p needle
  unfolding has_prefix
  by_id_iff h = (
    λ e. Refers.by_id (drop (length needle) (id_string p.id)) h (has_prefix-drop _ needle e),
    from,
  )
    where
      from : Refers id_string p needle → has_prefix (id_string p.id) needle ≡ true
      from (by_name e) = absurd (cc (ap (λ s. has_prefix s (codes "@")) e))
      from (by_id rest h' e) = rw e (has_prefix-append needle rest)

-- `FindPeerByCLIRef` gives the first peer that the reference stands for, and nothing if there is none.
pub find_peer_by_cli_ref-FirstOf :
    (id_string : PeerId → Bytes) (ps : List Peer) (needle : Bytes)
    → FirstOf (λ p. Refers id_string p needle) ps (find_peer_by_cli_ref id_string ps needle)
unfolding find_peer_by_cli_ref
find_peer_by_cli_ref-FirstOf id_string ps needle =
    elim (Bool-cases (has_prefix needle (codes "@"))) [
      | inl h ↦ rw h (find_first-FirstOf _ _ ps (λ p. by_name_iff id_string p needle h))
      | inr h ↦ rw h (find_first-FirstOf _ _ ps (λ p. by_id_iff id_string p needle h))
    ]
