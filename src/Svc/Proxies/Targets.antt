-- ===== src/Svc/Proxies/Targets.antt =====
-- What `ProxyTo` makes of an address.
use mynetwork.Common.{
  ℕ, ◌+◌, ◌*◌, ◌≡◌, ◌≢◌, refl, ◌⊎◌, true, false, List, [], ◌∷◌, ◌++◌, Bytes, codes, none, ok, err,
  All, arith, append-nil, inl, inr,
}
use mynetwork.Svc.{unset, tcp_service}
use mynetwork.Svc.Proxies.{Component, Scan, p_ip4, p_ip6, p_tcp, scan_component, for_each, proxy_to}

abbrev pub IsIp : Component → Type 0
IsIp c = (c.code ≡ p_ip4) ⊎ (c.code ≡ p_ip6)

-- The last IP address of a list of components, or the one given.
pub last_ip : Bytes → List Component → Bytes
last_ip ip [] = ip
last_ip ip (c ∷ cs) = last_ip c.raw cs

abbrev fresh : Bytes → Scan
fresh ip = record { proxy = unset; error = none; done = false; ip_addr = ip }

scan-ip :
    (c : Component) (ip : Bytes) → IsIp c → scan_component c (fresh ip) ≡ ok (fresh c.raw, true)
unfolding scan_component
scan-ip c ip p = ground arith

for_each-ips :
    (ips more : List Component) (ip : Bytes)
    → All IsIp ips
    → for_each (ips ++ more) (fresh ip) ≡ for_each more (fresh (last_ip ip ips))
unfolding for_each last_ip
for_each-ips [] more ip h = refl
for_each-ips (c ∷ ips) more ip (p, h) =
    ground (arith, for_each-ips ips more c.raw h, scan-ip c ip p)

-- IP components and then a TCP component, whose value has two bytes at least, give the proxy to the
-- last of the IP addresses, or to 127.0.0.1, and to the port; what stands behind the TCP component is
-- not looked at.
pub proxy_to-tcp :
    (ips more : List Component) (c : Component) (hi lo : ℕ) (rest : Bytes)
    → All IsIp ips
    → c.code ≡ p_tcp
    → c.raw ≡ hi ∷ lo ∷ rest
    → proxy_to (ips ++ c ∷ more)
      ≡ ok (tcp_service (last_ip (127 ∷ 0 ∷ 0 ∷ 1 ∷ []) ips) (hi * 256 + lo))
unfolding proxy_to
proxy_to-tcp ips more c hi lo rest h tcp raw =
    ground (arith, for_each-ips ips (c ∷ more) (127 ∷ 0 ∷ 0 ∷ 1 ∷ []) h)

-- An address of IP components alone is accepted, and its proxy is the zero value, whose handler is
-- nil.
pub proxy_to-ips : (ips : List Component) → All IsIp ips → proxy_to ips ≡ ok unset
unfolding proxy_to
proxy_to-ips ips h = ground (arith, for_each-ips ips [] (127 ∷ 0 ∷ 0 ∷ 1 ∷ []) h, append-nil ips)

-- After IP components, any component that is neither IP nor TCP is refused, by its name, whatever
-- follows.
pub proxy_to-unsupported :
    (ips more : List Component) (c : Component)
    → All IsIp ips
    → ¬ IsIp c
    → c.code ≢ p_tcp
    → proxy_to (ips ++ c ∷ more) ≡ err (codes "unsupported protocol: " ++ c.name)
unfolding proxy_to
proxy_to-unsupported ips more c h ip tcp = ground (
  arith,
  for_each-ips ips (c ∷ more) (127 ∷ 0 ∷ 0 ∷ 1 ∷ []) h,
  λ (e : c.code ≡ p_ip4). ip (inl e),
  λ (e : c.code ≡ p_ip6). ip (inr e),
)
