-- ===== src/Rpc/Server/Showing.antt =====
-- What the action show of `Route` says of a route.
use mynetwork.Common.{
  ◌≡◌, refl, Bool, false, not, ◌&&◌, ◌||◌, any, List, [], ◌∷◌, Bytes, bytes_eq, arith, Bool-cases,
  inl, inr, if◌then◌else◌,
}
use mynetwork.Config.{PeerId, RouteTableEntry}
use mynetwork.Rpc.{Conn, Externals}
use mynetwork.Rpc.Server.{
  p2p_protocol, RelayScan, scan_stream, scan_streams, scan_conns, route_info,
}

-- A connection that carries a stream of the VPN, through a relay or directly.
abbrev pub carries : Conn → Bool
carries c = any (λ protocol. bytes_eq protocol p2p_protocol) c.protocols

abbrev pub relayed : Conn → Bool
relayed c = carries c && c.via_circuit

abbrev pub direct : Conn → Bool
direct c = carries c && not c.via_circuit

module _ (x : Externals) (target : PeerId) where
  scan_stream-circuit :
      (c : Conn) (protocol : Bytes) (s : RelayScan)
      → s.left ≡ false
      → ((scan_stream x target c protocol s).left
          ≡ (bytes_eq protocol p2p_protocol && not c.via_circuit))
        × ((scan_stream x target c protocol s).relay
            ≡ (if bytes_eq protocol p2p_protocol then c.via_circuit else s.relay))
  unfolding scan_stream
  scan_stream-circuit c protocol s go = elim (Bool-cases (bytes_eq protocol p2p_protocol)) [
    | inr other ↦ (ground (arith, other, go), ground (arith, other))
    | inl ours ↦ elim (Bool-cases c.via_circuit) [
      | inl circuit ↦ (ground (arith, ours, circuit, go), ground (arith, ours, circuit))
      | inr straight ↦ (ground (arith, ours, straight), ground (arith, ours, straight))
    ]
  ]

  scan_streams-circuit :
      (c : Conn) (protocols : List Bytes) (s : RelayScan)
      → s.left ≡ false
      → ((scan_streams x target c protocols s).left
          ≡ (any (λ protocol. bytes_eq protocol p2p_protocol) protocols && not c.via_circuit))
        × ((scan_streams x target c protocols s).relay ≡ (
            if any (λ protocol. bytes_eq protocol p2p_protocol) protocols
            then c.via_circuit
            else s.relay))
  unfolding scan_streams
  scan_streams-circuit c [] s go = (go, refl)
  scan_streams-circuit c (protocol ∷ rest) s go =
      let (l, r) = scan_stream-circuit c protocol s go in
      elim (Bool-cases (scan_stream x target c protocol s).left) [
        | inl left ↦ (ground (arith, l, r, left), ground (arith, l, r, left))
        | inr on ↦
            let (l', r') = scan_streams-circuit c rest (scan_stream x target c protocol s) on in
            (ground (arith, l, r, l', r', on), ground (arith, l, r, l', r', on))
      ]

  scan_conns-relay :
      (cs : List Conn) (s : RelayScan)
      → s.left ≡ false
      → (scan_conns x target cs s).relay ≡ (not (any direct cs) && (s.relay || any relayed cs))
  unfolding scan_conns
  scan_conns-relay [] s go = ground arith
  scan_conns-relay (c ∷ cs) s go =
      let (l, r) = scan_streams-circuit c c.protocols s go in
      elim (Bool-cases (scan_streams x target c c.protocols s).left) [
        | inl left ↦ ground (arith, l, r, left)
        | inr on ↦
            ground (arith, l, r, on, scan_conns-relay cs (scan_streams x target c c.protocols s) on)
      ]

-- A route is shown as relayed exactly when its target is connected, some connection to it carries a
-- stream of the VPN through a relay, and none carries one directly, whatever the order of the
-- connections and of their streams.
pub route_info-relay :
    (x : Externals) (rte : RouteTableEntry)
    → (route_info x rte).is_relay ≡ (
        x.host.is_connected rte.target.id
        && (not (any direct (x.host.conns_to_peer rte.target.id))
            && any relayed (x.host.conns_to_peer rte.target.id)))
unfolding route_info
route_info-relay x rte =
    let h =
      scan_conns-relay x rte.target.id (x.host.conns_to_peer rte.target.id)
        (record { relay = false; relay_addr = rte.target.id; left = false }) refl in
    elim (Bool-cases (x.host.is_connected rte.target.id)) [
      | inl connected ↦ ground (arith, connected, h)
      | inr apart ↦ ground (arith, apart)
    ]
