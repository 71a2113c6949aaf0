-- ===== src/Up/Start/Services.antt =====
-- The services that the service network has after the start.
use mynetwork.Common.{
  ◌≡◌, refl, sym, ap, subst, ◌∙◌, ◌↔◌, ◌⊎◌, inl, inr, true, false, List, [], ◌∷◌, Bytes, bytes_eq,
  bytes_eq_iff, bytes_eq_refl, get, get-put, take, drop, length, ◌==◌, is_some, ok, panic,
  ok-injective, bind_ok, Bool-cases,
}
use mynetwork.Config.{Config}
use mynetwork.Config.Ids.{mk_service_id}
use mynetwork.Svc.{ServiceNetwork, Proxy}
use mynetwork.Svc.Proxies.{Component, proxy_to}
use mynetwork.Svc.Network.{register, select_proxy, new_service_network}
use mynetwork.Svc.Network.Invariant.{IsCoherent}
use mynetwork.Up.Start.{check_err, register_services}

-- Some service of the configuration has the identifier.
abbrev pub Offers : List (Bytes × Bytes) → Bytes → Type 0
Offers [] id = ⊥
Offers ((name, addr) ∷ services) id = (mk_service_id name ≡ id) ⊎ Offers services id

module _ {T : Type 0} (components : Bytes → List Component) where
  -- What the registrations leave alone.
  record Extends (sn sn' : ServiceNetwork T) : Type 0 where
    pub same_config : sn'.config ≡ sn.config
    pub same_self : sn'.self ≡ sn.self
    pub same_addrs : sn'.active_addrs ≡ sn.active_addrs
    pub same_ports : sn'.active_ports ≡ sn.active_ports

  is_some-register :
      (sn : ServiceNetwork T) (name id : Bytes) (proxy : Proxy)
      → (is_some (get (register sn name proxy).listeners id) ≡ true)
        ↔ ((is_some (get sn.listeners id) ≡ true) ⊎ (mk_service_id name ≡ id))
  unfolding register
  is_some-register sn name id proxy =
      let found = get-put sn.listeners (mk_service_id name) id proxy in
      elim (Bool-cases (bytes_eq (mk_service_id name) id)) [
        | inl same ↦
            (λ h. inr ((bytes_eq_iff (mk_service_id name) id).0 same), λ h. rw (found, same) refl)
        | inr other ↦ (
          λ h. inl (rw (found, other) at h),
          λ h. elim h [
            | inl before ↦ rw (found, other) before
            | inr equal ↦
                let wrong = sym other ∙ (bytes_eq_iff (mk_service_id name) id).1 equal in cc
          ],
        )
      ]

  register_services-listeners :
      (services : List (Bytes × Bytes)) (sn sn' : ServiceNetwork T) (id : Bytes)
      → register_services components services sn ≡ ok sn'
      → (is_some (get sn'.listeners id) ≡ true)
        ↔ ((is_some (get sn.listeners id) ≡ true) ⊎ Offers services id)
  unfolding register_services
  register_services-listeners [] sn sn' id e =
      let same = ap (λ s. is_some (get s.listeners id)) (ok-injective e) in
      (
        λ h. inl (same ∙ h),
        λ h. elim h [ inl before ↦ sym same ∙ before | inr none_left ↦ absurd none_left ],
      )
  register_services-listeners ((name, addr) ∷ services) sn sn' id e =
      let (proxy, made, more) = bind_ok (check_err (proxy_to (components addr))) _ e in
      let later = register_services-listeners services (register sn name proxy) sn' id more in
      let first = is_some-register sn name id proxy in
      (
        λ h. elim (later.0 h) [
          | inl here ↦ elim (first.0 here) [
            | inl before ↦ inl before
            | inr is_first ↦ inr (inl is_first)
          ]
          | inr there ↦ inr (inr there)
        ],
        λ h. elim h [
          | inl before ↦ later.1 (inl (first.1 (inl before)))
          | inr (inl is_first) ↦ later.1 (inl (first.1 (inr is_first)))
          | inr (inr there) ↦ later.1 (inr there)
        ],
      )

  register_services-Extends :
      (services : List (Bytes × Bytes)) (sn sn' : ServiceNetwork T)
      → register_services components services sn ≡ ok sn'
      → Extends sn sn'
  unfolding register_services register
  register_services-Extends [] sn sn' e =
      let same = sym (ok-injective e) in
      record {
        same_config = ap (λ s. s.config) same;
        same_self = ap (λ s. s.self) same;
        same_addrs = ap (λ s. s.active_addrs) same;
        same_ports = ap (λ s. s.active_ports) same;
      }
  register_services-Extends ((name, addr) ∷ services) sn sn' e =
      let (proxy, made, more) = bind_ok (check_err (proxy_to (components addr))) _ e in
      let h = register_services-Extends services (register sn name proxy) sn' more in
      record {
        same_config = h.same_config;
        same_self = h.same_self;
        same_addrs = h.same_addrs;
        same_ports = h.same_ports;
      }

  select_proxy-own :
      (sn : ServiceNetwork T) (addr : Bytes)
      → take 4 (drop 10 addr) ≡ sn.self
      → select_proxy sn addr ≡ get sn.listeners (take 2 (drop 14 addr))
  unfolding select_proxy
  select_proxy-own sn addr own = rw (select_proxy, own, bytes_eq_refl sn.self) refl

  new_service_network_empty :
      (config : Config T) (sn : ServiceNetwork T)
      → new_service_network config ≡ ok sn
      → (sn.listeners ≡ []) × (IsCoherent sn) × (sn.self ≡ take 4 (drop 12 config.builtin_addr6))
  unfolding new_service_network get
  new_service_network_empty config sn e =
      elim (Bool-cases (length (take 4 (drop 12 config.builtin_addr6)) == 4)) [
        | inl long ↦
            let same = ok-injective (rw long at e) in
            (
              ap (λ s. s.listeners) (sym same),
              subst IsCoherent same (record { agree = λ a. refl }),
              ap (λ s. s.self) (sym same),
            )
        | inr short ↦ let wrong : panic ≡ ok sn = rw short at e in cc
      ]

  -- When NewServiceNetwork and the registration of all services of the configuration end without an
  -- error, the sets of addresses and ports of the service network agree, and for an address with the
  -- node's own network ID, the last four bytes of its IPv6 address, EnsureListener has a proxy exactly
  -- when some service of the configuration has the identifier in the last two bytes of the address.
  pub register_services-select_proxy :
      (config : Config T) (sn sn' : ServiceNetwork T) (addr : Bytes)
      → new_service_network config ≡ ok sn
      → register_services components config.services sn ≡ ok sn'
      → take 4 (drop 10 addr) ≡ take 4 (drop 12 config.builtin_addr6)
      → IsCoherent sn'
        × ((is_some (select_proxy sn' addr) ≡ true)
            ↔ Offers config.services (take 2 (drop 14 addr)))
  unfolding get
  register_services-select_proxy config sn sn' addr created registered own =
      let (empty, coherent, self) = new_service_network_empty config sn created in
      let h = register_services-Extends config.services sn sn' registered in
      let id = take 2 (drop 14 addr) in
      let listened = register_services-listeners config.services sn sn' id registered in
      let chosen = ap is_some (select_proxy-own sn' addr (own ∙ sym self ∙ sym h.same_self)) in
      let nothing = ap (λ l. is_some (get l id)) empty in
      (
        record {
          agree = λ a.
              ap (λ m. is_some (get m a)) h.same_addrs
              ∙ coherent.agree a
              ∙ sym (ap (λ m. is_some (get m a)) h.same_ports);
        },
        (
          λ there. elim (listened.0 (sym chosen ∙ there)) [
            | inl before ↦ let wrong : false ≡ true = sym nothing ∙ before in absurd (cc wrong)
            | inr offered ↦ offered
          ],
          λ offered. chosen ∙ listened.1 (inr offered),
        ),
      )
