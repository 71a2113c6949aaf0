-- ===== src/Svc/Network/Reach.antt =====
-- Which listener an address gets, and that it gets one once.
use mynetwork.Common.{
  ℕ, ◌≡◌, refl, sym, ◌∙◌, true, false, List, [], ◌∷◌, ◌++◌, Bytes, get, put, get-put_self, bytes_eq,
  bytes_eq_refl, is_some, Outcome, ok, panic, arith, Bool-cases, Option-cases, none, some, inl, inr,
  take, drop, subst, ok-injective,
}
use mynetwork.Config.{PeerId, Peer}
use mynetwork.Config.Ids.{mk_net_id, mk_service_id, mk_service_addr6}
use mynetwork.Config.Ids.Shape.{
  mk_service_addr6_parts, four_elems, two_elems, length-mk_net_id, length-mk_service_id,
}
use mynetwork.Svc.{ServiceNetwork, Event, Proxy, unset, remote_service, add_protocol_address, serve}
use mynetwork.Svc.Network.{
  register, port_active, select_proxy, with_addr, with_port, ensure_listener,
}
use mynetwork.Svc.Proxies.{Answers, handle}
use mynetwork.Svc.Network.Invariant.{IsCoherent}

-- The two slices of a service address are the network ID and the service ID it was made from.
service_addr_slices :
    (p : PeerId) (s : Bytes)
    → (take 4 (drop 10 (mk_service_addr6 p s)) ≡ mk_net_id p)
      × (take 2 (drop 14 (mk_service_addr6 p s)) ≡ mk_service_id s)
service_addr_slices p s =
    let (x, y, z, w, e) = four_elems (mk_net_id p) (length-mk_net_id p) in
    let (a, b, f) = two_elems (mk_service_id s) (length-mk_service_id s) in
    rw (mk_service_addr6_parts p s, e, f) (refl, refl)

module _ {T : Type 0} where
  with_port_active :
      (sn : ServiceNetwork T) (addr : Bytes) (port : ℕ) {sn' : ServiceNetwork T}
      → with_port sn addr port ≡ ok sn'
      → (port_active sn' addr port ≡ true) × (sn'.active_addrs ≡ sn.active_addrs)
  unfolding with_port port_active
  with_port_active sn addr port {sn'} e = elim (Option-cases (get sn.active_ports addr)) [
    | inl missing ↦ absurd (cc (missing, e))
    | inr (ports, there) ↦
        let written : record sn { active_ports = put sn.active_ports addr (port ∷ ports) } ≡ sn' =
          ok-injective (rw (there, with_port) at e) in
        subst
          (λ (s : ServiceNetwork T).
            (port_active s addr port ≡ true) × (s.active_addrs ≡ sn.active_addrs))
          written (ground (arith, get-put_self sn.active_ports addr (port ∷ ports)), refl)
  ]

  with_addr_active :
      (sn : ServiceNetwork T) (addr : Bytes)
      → is_some (get (with_addr sn addr).active_addrs addr) ≡ true
  unfolding with_addr
  with_addr_active sn addr = rw (get-put_self sn.active_addrs addr tt)

  pub ensured_active :
      (listen : Bytes → ℕ → Outcome (Unit {0})) (sn : ServiceNetwork T) (addr : Bytes) (port : ℕ)
      {sn' : ServiceNetwork T} {events : List Event}
      → ensure_listener listen sn addr port ≡ ok (sn', true, events)
      → (is_some (get sn'.active_addrs addr) ≡ true) × (port_active sn' addr port ≡ true)
  unfolding ensure_listener
  ensured_active listen sn addr port {sn'} e = ground (
    arith,
    with_port_active sn addr port {sn' = sn'},
    with_port_active (with_addr sn addr) addr port {sn' = sn'},
    with_addr_active sn addr,
  )

  with_port_total :
      (sn : ServiceNetwork T) (addr : Bytes) (port : ℕ)
      → is_some (get sn.active_ports addr) ≡ true
      → (sn' : ServiceNetwork T) × (with_port sn addr port ≡ ok sn')
  unfolding with_port
  with_port_total sn addr port h = elim (Option-cases (get sn.active_ports addr)) [
    | inl missing ↦ absurd (cc (missing, h))
    | inr (ports, there) ↦ (
      record sn { active_ports = put sn.active_ports addr (port ∷ ports) },
      rw (there, with_port),
    )
  ]

  with_addr_ports :
      (sn : ServiceNetwork T) (addr : Bytes)
      → is_some (get (with_addr sn addr).active_ports addr) ≡ true
  unfolding with_addr
  with_addr_ports sn addr = rw (get-put_self sn.active_ports addr [])

  -- The proxy that serves an address that has one.
  serves :
      (listen : Bytes → ℕ → Outcome (Unit {0})) (sn : ServiceNetwork T) (addr : Bytes) (port : ℕ)
      (proxy : Proxy)
      → IsCoherent sn
      → port_active sn addr port ≡ false
      → select_proxy sn addr ≡ some proxy
      → listen addr port ≡ ok tt
      → (sn' : ServiceNetwork T) × (events : List Event) × (ensure_listener listen sn addr port
          ≡ ok (sn', true, events ++ serve addr port proxy ∷ []))
  unfolding ensure_listener
  serves listen sn addr port proxy h idle chosen listened =
      elim (Bool-cases (is_some (get sn.active_addrs addr))) [
        | inl known ↦
            let (sn', e) = with_port_total sn addr port (sym (h.agree addr) ∙ known) in
            (sn', [], ground (arith, known, idle, chosen, e, listened))
        | inr fresh ↦
            let (sn', e) =
              with_port_total (with_addr sn addr) addr port (with_addr_ports sn addr) in
            (sn', add_protocol_address addr ∷ [], ground (arith, fresh, chosen, e, listened))
      ]

  select_proxy-local :
      (sn : ServiceNetwork T) (p : PeerId) (name : Bytes) (proxy : Proxy)
      → sn.self ≡ mk_net_id p
      → select_proxy (register sn name proxy) (mk_service_addr6 p name) ≡ some proxy
  unfolding select_proxy register
  select_proxy-local sn p name proxy own =
      let (net, svc) = service_addr_slices p name in
      rw (net, svc, own, bytes_eq_refl (mk_net_id p))
        (get-put_self sn.listeners (mk_service_id name) proxy)

  select_proxy-remote :
      (sn : ServiceNetwork T) (p : PeerId) (name : Bytes) (q : Peer)
      → bytes_eq (mk_net_id p) sn.self ≡ false
      → get sn.config.peer_lookup.by_net_id (mk_net_id p) ≡ some q
      → select_proxy sn (mk_service_addr6 p name) ≡ some (remote_service q.id (mk_service_id name))
  unfolding select_proxy
  select_proxy-remote sn p name q foreign found =
      let (net, svc) = service_addr_slices p name in rw (net, svc, foreign) (ground (arith, found))

  select_proxy-stranger :
      (sn : ServiceNetwork T) (p : PeerId) (name : Bytes)
      → bytes_eq (mk_net_id p) sn.self ≡ false
      → get sn.config.peer_lookup.by_net_id (mk_net_id p) ≡ none
      → select_proxy sn (mk_service_addr6 p name) ≡ some unset
  unfolding select_proxy
  select_proxy-stranger sn p name foreign missing =
      let (net, svc) = service_addr_slices p name in
      rw (net, svc, foreign) (ground (arith, missing))

  register-IsCoherent :
      (sn : ServiceNetwork T) (name : Bytes) (proxy : Proxy)
      → IsCoherent sn
      → IsCoherent (register sn name proxy)
  unfolding register
  register-IsCoherent sn name proxy h = record { agree = h.agree }

  port_active-register :
      (sn : ServiceNetwork T) (name : Bytes) (proxy : Proxy) (addr : Bytes) (port : ℕ)
      → port_active (register sn name proxy) addr port ≡ port_active sn addr port
  unfolding register port_active
  port_active-register sn name proxy addr port = refl

  -- A service that this node has just registered is served, by its own proxy, at the address that
  -- MkServiceAddr6 makes for this node and the name, once `EnsureListener` is called for an idle port
  -- of it, if the two sets agree and the network stack listens.
  pub ensure_listener-register :
      (listen : Bytes → ℕ → Outcome (Unit {0})) (sn : ServiceNetwork T) (p : PeerId) (name : Bytes)
      (proxy : Proxy) (port : ℕ)
      → IsCoherent sn
      → sn.self ≡ mk_net_id p
      → port_active sn (mk_service_addr6 p name) port ≡ false
      → listen (mk_service_addr6 p name) port ≡ ok tt
      → (sn' : ServiceNetwork T) × (events : List Event) × (ensure_listener listen
            (register sn name proxy)
            (mk_service_addr6 p name)
            port
          ≡ ok (sn', true, events ++ serve (mk_service_addr6 p name) port proxy ∷ []))
  ensure_listener-register listen sn p name proxy port h own idle listened =
      serves listen (register sn name proxy) (mk_service_addr6 p name) port proxy
        (register-IsCoherent sn name proxy h)
        (port_active-register sn name proxy (mk_service_addr6 p name) port ∙ idle)
        (select_proxy-local sn p name proxy own) listened

  -- At the address that MkServiceAddr6 makes for another node whose network ID belongs to a known
  -- peer, `EnsureListener` for an idle port starts a listener that forwards to that peer, with the
  -- identifier of the service that was named, if the two sets agree and the network stack listens.
  pub ensure_listener-remote :
      (listen : Bytes → ℕ → Outcome (Unit {0})) (sn : ServiceNetwork T) (p : PeerId) (name : Bytes)
      (q : Peer) (port : ℕ)
      → IsCoherent sn
      → bytes_eq (mk_net_id p) sn.self ≡ false
      → get sn.config.peer_lookup.by_net_id (mk_net_id p) ≡ some q
      → port_active sn (mk_service_addr6 p name) port ≡ false
      → listen (mk_service_addr6 p name) port ≡ ok tt
      → (sn' : ServiceNetwork T) × (events : List Event) × (ensure_listener listen sn
            (mk_service_addr6 p name)
            port
          ≡ ok (
            sn',
            true,
            events
                ++ serve (mk_service_addr6 p name) port (remote_service q.id (mk_service_id name))
                  ∷ [],
          ))
  ensure_listener-remote listen sn p name q port h foreign found idle listened =
      serves listen sn (mk_service_addr6 p name) port (remote_service q.id (mk_service_id name)) h
        idle (select_proxy-remote sn p name q foreign found) listened

  -- A local service that is not registered is refused, and nothing is changed.
  pub ensure_listener-unregistered :
      (listen : Bytes → ℕ → Outcome (Unit {0})) (sn : ServiceNetwork T) (p : PeerId) (name : Bytes)
      (port : ℕ)
      → sn.self ≡ mk_net_id p
      → port_active sn (mk_service_addr6 p name) port ≡ false
      → get sn.listeners (mk_service_id name) ≡ none
      → ensure_listener listen sn (mk_service_addr6 p name) port ≡ ok (sn, false, [])
  unfolding ensure_listener select_proxy
  ensure_listener-unregistered listen sn p name port own idle missing =
      let (net, svc) = service_addr_slices p name in
      ground (arith, net, svc, idle, missing, own, bytes_eq_refl (mk_net_id p))

  -- For the network ID of nobody, neither this node nor a peer, and an idle port, a listener is started
  -- whose proxy has no handler, if the two sets agree and the network stack listens: its first
  -- connection panics, whatever the other side answers.
  pub ensure_listener-stranger :
      (listen : Bytes → ℕ → Outcome (Unit {0})) (sn : ServiceNetwork T) (p : PeerId) (name : Bytes)
      (port : ℕ) (a : Answers)
      → IsCoherent sn
      → bytes_eq (mk_net_id p) sn.self ≡ false
      → get sn.config.peer_lookup.by_net_id (mk_net_id p) ≡ none
      → port_active sn (mk_service_addr6 p name) port ≡ false
      → listen (mk_service_addr6 p name) port ≡ ok tt
      → (sn' : ServiceNetwork T) × (events : List Event) × (proxy : Proxy) × (ensure_listener listen
            sn
            (mk_service_addr6 p name)
            port
          ≡ ok (sn', true, events ++ serve (mk_service_addr6 p name) port proxy ∷ []))
        × (handle proxy a ≡ panic)
  unfolding handle
  ensure_listener-stranger listen sn p name port a h foreign missing idle listened =
      let (sn', events, e) =
        serves listen sn (mk_service_addr6 p name) port unset h idle
          (select_proxy-stranger sn p name foreign missing) listened in
      (sn', events, unset, e, refl)
