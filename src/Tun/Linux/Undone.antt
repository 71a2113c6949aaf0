-- ===== src/Tun/Linux/Undone.antt =====
-- Routes that were added on Linux are removed again.
use mynetwork.Common.{
  ℕ, ◌≡◌, refl, sym, ap, ◌∙◌, inl, inr, Sum-cases, Pair-cases, Option, none, some, List, [], ◌∷◌,
  ◌++◌, map, Bytes, IpNet,
}
use mynetwork.Tun.{
  iface_name, Tun, Machine, OptionFunc, apply, Driver, route_option, remove_route_option,
}
use mynetwork.Tun.Applied.{apply-step, apply-stop, apply-append, apply-HasRun}
use mynetwork.Tun.Linux.{Netlink, Route, linux, on_link, add_route, del_route}

module _ {W : Type 0} (d : Driver W) where
  -- The options that remove routes, the last one first.
  unfoldable pub removals : List IpNet → List (Option (OptionFunc W))
  removals [] = []
  removals (n ∷ ns) = removals ns ++ remove_route_option d n ∷ []

  -- For a system whose removal of a route undoes its addition.
  apply-removals :
      ((n : IpNet) (m m' : Machine W) → d.add_route n m ≡ (m', none) → d.del_route n m' ≡ (m, none))
      → (ns : List IpNet) (m m' : Machine W) → apply (map (route_option d) ns) m ≡ (m', none)
      → apply (removals ns) m' ≡ (m, none)
  unfolding removals apply route_option remove_route_option
  apply-removals undo [] m m' e = ap (λ r. (r.0, none)) (sym e)
  apply-removals undo (n ∷ ns) m m' e = elim (Pair-cases (d.add_route n m)) [
    | inl (m1, fine) ↦
        let step = apply-step (d.add_route n) (map (route_option d) ns) m fine in
        let back = apply-removals undo ns m1 m' (sym step ∙ e) in
        apply-append (remove_route_option d n ∷ []) (apply-HasRun (removals ns) m' m1 back)
        ∙ apply-step (d.del_route n) [] m1 (undo n m m1 fine)
    | inr (m1, x, failed) ↦
        let impossible : ◌≡◌ {A = Machine W × Option Bytes} (m1, some x) (m', none) =
          sym (apply-stop (d.add_route n) (map (route_option d) ns) m failed) ∙ e in
        cc
  ]

-- The kernel finds the same links before and after a change of its routes, and a route that it took in
-- it gives back.
pub record NetlinkLaws {W A : Type 0} (nl : Netlink W A) : Type 0 where
  pub links_kept :
      (w : W) (r : Route) (name : Bytes)
      → nl.link_by_name (nl.route_add w r).0 name ≡ nl.link_by_name w name
  pub taken_back :
      (w w' : W) (r : Route) → nl.route_add w r ≡ (w', none) → nl.route_del w' r ≡ (w, none)

-- Every call goes to the link of the interface, and without one to nowhere.
module _ {W A : Type 0} (nl : Netlink W A) (call : ℕ → W → W × Option Bytes) (t : Tun) (w : W) where
  pub on_link-found :
      (link : ℕ)
      → nl.link_by_name w (iface_name t.iface) ≡ inr link
      → on_link nl call (t, w) ≡ ((t, (call link w).0), (call link w).1)
  unfolding on_link
  on_link-found link found = rw (on_link, found) refl

  pub on_link-missing :
      (error : Bytes)
      → nl.link_by_name w (iface_name t.iface) ≡ inl error
      → on_link nl call (t, w) ≡ ((t, w), some error)
  unfolding on_link
  on_link-missing error missing = rw (on_link, missing) refl

module _ {W A : Type 0} (nl : Netlink W A) (laws : NetlinkLaws nl) where
  unfoldable adding : IpNet → ℕ → W → W × Option Bytes
  adding n link w = nl.route_add w (record { link_index = link; dst = n; priority = 3000 })

  unfoldable deleting : IpNet → ℕ → W → W × Option Bytes
  deleting n link w = nl.route_del w (record { link_index = link; dst = n; priority = 3000 })

  -- With the state of the system after the route was added.
  del_route-after :
      (n : IpNet) (t : Tun) (w w' : W) (link : ℕ)
      → nl.link_by_name w (iface_name t.iface) ≡ inr link
      → nl.route_add w (record { link_index = link; dst = n; priority = 3000 }) ≡ (w', none)
      → del_route nl n (t, w') ≡ ((t, w), none)
  unfolding del_route deleting
  del_route-after n t w w' link found added =
      let route : Route = record { link_index = link; dst = n; priority = 3000 } in
      let kept =
        ap (λ r. nl.link_by_name r.0 (iface_name t.iface)) (sym added)
        ∙ laws.links_kept w route (iface_name t.iface) in
      on_link-found nl (deleting n) t w' link (kept ∙ found)
      ∙ ap (λ r. ((t, r.0), r.1)) (laws.taken_back w w' route added)

  del_route-add_route :
      (n : IpNet) (m m' : Machine W) → add_route nl n m ≡ (m', none) → del_route nl n m' ≡ (m, none)
  unfolding add_route adding
  del_route-add_route n (t, w) m' e = elim (Sum-cases (nl.link_by_name w (iface_name t.iface))) [
    | inl (x, missing) ↦
        let impossible : ◌≡◌ {A = Machine W × Option Bytes} ((t, w), some x) (m', none) =
          sym (on_link-missing nl (adding n) t w x missing) ∙ e in
        cc
    | inr (link, found) ↦
        let added = nl.route_add w (record { link_index = link; dst = n; priority = 3000 }) in
        let same : ◌≡◌ {A = Machine W × Option Bytes} ((t, added.0), added.1) (m', none) =
          sym (on_link-found nl (adding n) t w link found) ∙ e in
        let fine : added ≡ (added.0, none) = ap (λ r. (added.0, r.1)) same in
        ap (λ r. del_route nl n r.0) (sym same) ∙ del_route-after n t w added.0 link found fine
  ]

  -- When Apply has added a list of routes on Linux without an error, then Apply of the removals of the
  -- same routes, the last one first, gives no error and leaves the device and the system as they were
  -- before, for a kernel that finds the same links after a route is added and gives a route back that it
  -- took in: the options Route and RemoveRoute name the same link, network and priority.
  pub apply-removals-linux :
      (ns : List IpNet) (m m' : Machine W)
      → apply (map (route_option (linux nl)) ns) m ≡ (m', none)
      → apply (removals (linux nl) ns) m' ≡ (m, none)
  apply-removals-linux = apply-removals (linux nl) del_route-add_route
