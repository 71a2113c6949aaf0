-- ===== src/Rpc/Reports/Counts.antt =====
-- What the reports count and name.
use mynetwork.Common.{
  ℕ, suc, ◌+◌, ◌≤◌, ◌≡◌, refl, ap, List, [], ◌∷◌, map, length, length-append, arith, Bool-cases,
  inl, inr, if◌then◌else◌,
}
use mynetwork.Config.{Peer}
use mynetwork.Rpc.{Externals, Daemon}
use mynetwork.Rpc.Reports.{conn_line, count_peers, status}

-- How many peers are connected, and how many connections they have.
pub connected : Externals → List Peer → ℕ
connected x [] = 0
connected x (p ∷ ps) = if x.host.is_connected p.id then suc (connected x ps) else connected x ps

pub connections : Externals → List Peer → ℕ
connections x [] = 0
connections x (p ∷ ps) =
    if x.host.is_connected p.id
    then length (x.host.conns_to_peer p.id) + connections x ps
    else connections x ps

length-map : {A B : Type 0} (f : A → B) (xs : List A) → length (map f xs) ≡ length xs
length-map f [] = refl
length-map f (y ∷ xs) = ap suc (length-map f xs)

connected-bound : (x : Externals) (ps : List Peer) → connected x ps ≤ length ps
unfolding connected
connected-bound x [] = omega arith
connected-bound x (p ∷ ps) = ground (arith, connected-bound x ps)

count_peers-counts :
    (x : Externals) (ps : List Peer)
    → ((count_peers x ps).0 ≡ connected x ps) × (length (count_peers x ps).1 ≡ connections x ps)
unfolding count_peers connected connections
count_peers-counts x [] = (refl, refl)
count_peers-counts x (p ∷ ps) =
    let (n, l) = count_peers-counts x ps in
    elim (Bool-cases (x.host.is_connected p.id)) [
      | inr apart ↦ (ground (arith, apart, n), ground (arith, apart, l))
      | inl near ↦ (
        ground (arith, near, n),
        ground (
          arith,
          near,
          l,
          length-map (conn_line x p) (x.host.conns_to_peer p.id),
          length-append (map (conn_line x p) (x.host.conns_to_peer p.id)) (count_peers x ps).1,
        ),
      )
    ]

-- `Status` counts the connected peers of the configuration, which are no more than the maximum that
-- it reports, and lists one line for each of their connections.
pub status-counts :
    {T : Type 0} (x : Externals) (d : Daemon T)
    → ((status x d).net_peers_current ≡ connected x d.config.peers)
      × ((status x d).net_peers_current ≤ (status x d).net_peers_max)
      × (length (status x d).net_peer_addrs_current ≡ connections x d.config.peers)
unfolding status
status-counts x d =
    let (n, l) = count_peers-counts x d.config.peers in
    (n, omega (arith, n, connected-bound x d.config.peers), l)
