-- ===== src/Checks/OfStart.antt =====
-- Instances of the theorems about the start of the daemon.
use mynetwork.Common.{
  ◌≡◌, refl, ◌↔◌, inl, inr, true, any, List, [], ◌∷◌, Bytes, codes, take, drop, none, is_some, ok,
  ip_net_contains,
}
use mynetwork.Config.{Config, RouteTableEntry}
use mynetwork.Config.Ids.{mk_net_id, mk_service_addr6, mk_builtin_addr6}
use mynetwork.Svc.{Proxy, ServiceNetwork}
use mynetwork.Svc.Proxies.{Component, proxy_to}
use mynetwork.Svc.Network.{register, select_proxy, new_service_network}
use mynetwork.Svc.Network.Invariant.{IsCoherent}
use mynetwork.Tun.{water_iface, new_tun}
use mynetwork.Tun.Linux.{linux, up}
use mynetwork.Up.Routing.{network_range}
use mynetwork.Up.Start.{register_services, service_routes, finish}
use mynetwork.Up.Start.Services.{Offers, register_services-select_proxy}
use mynetwork.Up.Start.Routes.{service_routes-cover}
use mynetwork.Up.Start.Finish.{IsUp, finish-IsUp_iff}
use mynetwork.Checks.OfConfig.{blank, alice, bob}
use mynetwork.Checks.OfTun.{kernel, ten, started, via_link}

-- Every text stands for TCP port 80 of the loopback address.
abbrev to_port : Bytes → List Component
to_port s = record { code = 6; name = codes "tcp"; raw = 0 ∷ 80 ∷ [] } ∷ []

abbrev with_web : Config (List RouteTableEntry)
with_web = record blank {
  builtin_addr6 = mk_builtin_addr6 (codes "QmA");
  services = (codes "web", codes "/tcp/80") ∷ [];
}

abbrev before_web : ServiceNetwork (List RouteTableEntry)
before_web = record {
  config = with_web;
  self = mk_net_id (codes "QmA");
  active_addrs = [];
  active_ports = [];
  listeners = [];
}

abbrev after_web : ServiceNetwork (List RouteTableEntry)
after_web = register before_web (codes "web") (Proxy.tcp_service (127 ∷ 0 ∷ 0 ∷ 1 ∷ []) 80)

abbrev web_addr : Bytes
web_addr = mk_service_addr6 (codes "QmA") (codes "web")

register_services-select_proxy_example :
    IsCoherent after_web
    × ((is_some (select_proxy after_web web_addr) ≡ true)
        ↔ Offers with_web.services (take 2 (drop 14 web_addr)))
unfolding new_service_network register_services register proxy_to mk_service_addr6 mk_builtin_addr6
    mk_net_id
register_services-select_proxy_example =
    register_services-select_proxy to_port with_web before_web after_web web_addr refl refl refl

service_routes-cover_example :
    (any
        (λ n. ip_net_contains n (mk_service_addr6 (codes "QmB") (codes "web")))
        (service_routes (alice ∷ bob ∷ []) (codes "QmS"))
      ≡ true)
    × (ip_net_contains network_range (mk_service_addr6 (codes "QmA") (codes "x")) ≡ true)
unfolding service_routes ip_net_contains mk_net_id mk_service_addr6
service_routes-cover_example =
    service_routes-cover (alice ∷ bob ∷ []) (codes "QmS") (codes "QmB") (codes "web")
      (mk_service_addr6 (codes "QmA") (codes "x")) (inr (inl refl)) refl

finish-IsUp_iff_example :
    (finish (λ w. (w, none)) (up kernel) (linux kernel) (ten ∷ []) started
      ≡ ((new_tun (water_iface (codes "mynetwork")), via_link ten ∷ []), ok tt))
    ↔ IsUp
        (λ w. (w, none))
        (up kernel)
        (linux kernel)
        (ten ∷ [])
        (new_tun (water_iface (codes "mynetwork")))
        []
        (new_tun (water_iface (codes "mynetwork")), via_link ten ∷ [])
finish-IsUp_iff_example =
    finish-IsUp_iff (λ w. (w, none)) (up kernel) (linux kernel) (ten ∷ [])
      (new_tun (water_iface (codes "mynetwork"))) []
      (new_tun (water_iface (codes "mynetwork")), via_link ten ∷ [])
