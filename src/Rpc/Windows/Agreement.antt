-- ===== src/Rpc/Windows/Agreement.antt =====
-- `AddPeer` on Windows and elsewhere.
use mynetwork.Common.{
  ◌≡◌, refl, Bool, List, [], ◌∷◌, any, Bytes, bytes_eq, is_some, Outcome-cases, arith, Bool-cases,
  inl, inr,
}
use mynetwork.Config.{PeerId, Peer, Ranger}
use mynetwork.Config.Lookup.{find_first, find_peer, find_peer_by_name}
use mynetwork.Rpc.{AddPeerArgs, Externals, Daemon}
use mynetwork.Rpc.Server.{add_peer_call}
use mynetwork.Rpc.Server.Adding.{is_success}
use mynetwork.Rpc.Windows.{windows_add_peer}

any-find_first : (test : Peer → Bool) (ps : List Peer) → is_some (find_first test ps) ≡ any test ps
unfolding find_first
any-find_first test [] = refl
any-find_first test (p ∷ ps) = ground (arith, any-find_first test ps)

find_peer-any :
    (ps : List Peer) (id : PeerId)
    → is_some (find_peer ps id) ≡ any (λ (p : Peer). bytes_eq p.id id) ps
unfolding find_peer
find_peer-any ps id = any-find_first (λ p. bytes_eq p.id id) ps

find_peer_by_name-any :
    (ps : List Peer) (name : Bytes)
    → is_some (find_peer_by_name ps name) ≡ any (λ (p : Peer). bytes_eq p.name name) ps
unfolding find_peer_by_name
find_peer_by_name-any ps name = any-find_first (λ p. bytes_eq p.name name) ps

module _ {T : Type 0} (rg : Ranger T) (u : Bytes → Bytes) (x : Externals) (d : Daemon T) where
  -- `AddPeer` on Windows leaves the daemon just as `AddPeer` on other systems does, and reports success
  -- for the same requests, whatever the request and the peers are; the messages differ.
  pub windows_add_peer-add_peer_call :
      (args : AddPeerArgs)
      → ((windows_add_peer rg u x d args).0 ≡ (add_peer_call rg u x d args).0)
        × (is_success (windows_add_peer rg u x d args).1
            ≡ is_success (add_peer_call rg u x d args).1)
  unfolding windows_add_peer add_peer_call
  windows_add_peer-add_peer_call args = elim (Bool-cases (bytes_eq args.name [])) [
    | inl unnamed ↦ rw unnamed (refl, refl)
    | inr named ↦ elim (Bool-cases (bytes_eq args.id [])) [
      | inl ungiven ↦ rw (named, ungiven) (refl, refl)
      | inr given ↦ elim (Outcome-cases (x.peer_decode args.id)) [
        | inr bad ↦ (ground (arith, named, given, bad), ground (arith, named, given, bad))
        | inl (id, decoded) ↦
            let by_id = find_peer-any d.config.peers id in
            let by_name = find_peer_by_name-any d.config.peers args.name in
            (
              ground (arith, named, given, decoded, by_id, by_name),
              ground (arith, named, given, decoded, by_id, by_name),
            )
      ]
    ]
  ]
