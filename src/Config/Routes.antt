-- ===== src/Config/Routes.antt =====
-- The route table behind the documented behaviour of cidranger, and what the searches give after
-- the configuration changes.
use mathlib.Core.List.{Memᴰ}
use mynetwork.Common.{
  ◌≡◌, refl, ap, ◌∙◌, suc, ◌≤◌, true, false, List, [], ◌∷◌, some, Bytes, ◌≢◌, arith, ==_refl,
  bit_and, ok, panic, length, All, ip_net_contains, cidr_mask,
}
use mynetwork.Config.{PeerId, RouteTableEntry, Ranger, Config}
use mynetwork.Config.Ids.{mk_builtin_addr4, mk_builtin_addr6, mk_net_id}
use mynetwork.Config.Ids.Shape.{
  mk_builtin_addr4_shape, mk_builtin_addr6-mk_net_id, length-mk_net_id, four_elems,
}
use mynetwork.Config.Lookup.{pick_route, find_route_for_ip}
use mynetwork.Config.Update.{mk_peer, route4, route6, add_peer}

-- An inserted network is found by the addresses that it holds, beside those found before, unless it
-- was in the table already; other addresses find what they found.
pub record RangerLaws {T : Type 0} (rg : Ranger T) : Type 0 where
  pub empty_finds : (ip : Bytes) → rg.containing_networks rg.empty ip ≡ ok []
  pub insert_finds :
      (t : T) (e : RouteTableEntry) (ip : Bytes) (es : List RouteTableEntry)
      → rg.containing_networks t ip ≡ ok es
      → ip_net_contains e.net ip ≡ true
      → All (λ f. f.net ≢ e.net) es
      → (fs : List RouteTableEntry) × (rg.containing_networks (rg.insert_entry t e) ip ≡ ok fs)
        × (length fs ≡ suc (length es))
        × Memᴰ e fs
  pub insert_other :
      (t : T) (e : RouteTableEntry) (ip : Bytes)
      → ip_net_contains e.net ip ≡ false
      → rg.containing_networks (rg.insert_entry t e) ip ≡ rg.containing_networks t ip

route4-contains :
    (name : Bytes) (id : PeerId)
    → ip_net_contains (route4 (mk_peer name id)).net (mk_builtin_addr4 id) ≡ true
unfolding ip_net_contains cidr_mask
route4-contains name id =
    let (x, y, e) = mk_builtin_addr4_shape id in
    rw e (ground (arith, ==_refl (bit_and x 255), ==_refl (bit_and y 255)))

route6-contains-addr4 :
    (name : Bytes) (id : PeerId)
    → ip_net_contains (route6 (mk_peer name id)).net (mk_builtin_addr4 id) ≡ false
unfolding ip_net_contains cidr_mask
route6-contains-addr4 name id =
    let (x, y, e) = mk_builtin_addr4_shape id in
    let (a, b, c, d, f) = four_elems (mk_net_id id) (length-mk_net_id id) in
    rw (e, mk_builtin_addr6-mk_net_id id, f) refl

route4-contains-addr6 :
    (name : Bytes) (id : PeerId)
    → ip_net_contains (route4 (mk_peer name id)).net (mk_builtin_addr6 id) ≡ false
unfolding ip_net_contains cidr_mask
route4-contains-addr6 name id =
    let (x, y, e) = mk_builtin_addr4_shape id in
    let (a, b, c, d, f) = four_elems (mk_net_id id) (length-mk_net_id id) in
    rw (e, mk_builtin_addr6-mk_net_id id, f) refl

route6-contains :
    (name : Bytes) (id : PeerId)
    → ip_net_contains (route6 (mk_peer name id)).net (mk_builtin_addr6 id) ≡ true
unfolding ip_net_contains cidr_mask
route6-contains name id =
    let (a, b, c, d, f) = four_elems (mk_net_id id) (length-mk_net_id id) in
    rw (mk_builtin_addr6-mk_net_id id, f)
      (ground (
        arith,
        ==_refl (bit_and a 255),
        ==_refl (bit_and b 255),
        ==_refl (bit_and c 255),
        ==_refl (bit_and d 255),
      ))

-- A list of one element that holds `e` is `e` alone.
single : (e : RouteTableEntry) (fs : List RouteTableEntry) → Memᴰ e fs → length fs ≡ 1 → fs ≡ e ∷ []
single e [] m h = elim m [ ]
single e (f ∷ []) (Memᴰ.head p) h = rw p
single e (f ∷ []) (Memᴰ.tail m) h = elim m [ ]
single e (f ∷ g ∷ fs) m h = absurd (omega arith)

pick_route-many : (es : List RouteTableEntry) → 2 ≤ length es → pick_route (ok es) ≡ panic
unfolding pick_route
pick_route-many [] h = absurd (omega arith)
pick_route-many (e ∷ []) h = absurd (omega arith)
pick_route-many (e ∷ f ∷ es) h = refl

module _ {T : Type 0} (rg : Ranger T) (laws : RangerLaws rg) (u : Bytes → Bytes) where
  pub insert_alone :
      (t : T) (e : RouteTableEntry) (ip : Bytes)
      → rg.containing_networks t ip ≡ ok []
      → ip_net_contains e.net ip ≡ true
      → rg.containing_networks (rg.insert_entry t e) ip ≡ ok (e ∷ [])
  insert_alone t e ip h c =
      let (fs, found, len, mem) = laws.insert_finds t e ip [] h c tt in
      found ∙ ap ok (single e fs mem len)

  -- After `AddPeer`, the search in a route table that obeys its laws gives the new peer's host route for
  -- each of its two addresses, if no network held the two addresses before.
  pub find_route_for_ip-add_peer :
      (cfg : Config T) (name : Bytes) (id : PeerId)
      → rg.containing_networks cfg.peer_lookup.by_route (mk_builtin_addr4 id) ≡ ok []
      → rg.containing_networks cfg.peer_lookup.by_route (mk_builtin_addr6 id) ≡ ok []
      → (find_route_for_ip rg (add_peer rg u cfg name id) (mk_builtin_addr4 id)
          ≡ ok (some (route4 (mk_peer name id))))
        × (find_route_for_ip rg (add_peer rg u cfg name id) (mk_builtin_addr6 id)
            ≡ ok (some (route6 (mk_peer name id))))
  unfolding find_route_for_ip add_peer
  find_route_for_ip-add_peer cfg name id h4 h6 =
      let p = mk_peer name id in
      let t = cfg.peer_lookup.by_route in
      let t4 = rg.insert_entry t (route4 p) in
      (
        ap pick_route (
            laws.insert_other t4 (route6 p) _ (route6-contains-addr4 name id)
            ∙ insert_alone t (route4 p) _ h4 (route4-contains name id)),
        ap pick_route (
            insert_alone t4 (route6 p) _
              (laws.insert_other t (route4 p) _ (route4-contains-addr6 name id) ∙ h6)
              (route6-contains name id)),
      )

  -- Two networks that hold one address: once a network is inserted beside a different one that holds
  -- the address already, every route search for that address panics.
  pub find_route_for_ip-overlap :
      (cfg : Config T) (e : RouteTableEntry) (ip : Bytes) (f : RouteTableEntry)
      (fs : List RouteTableEntry)
      → rg.containing_networks cfg.peer_lookup.by_route ip ≡ ok (f ∷ fs)
      → All (λ g. g.net ≢ e.net) (f ∷ fs)
      → ip_net_contains e.net ip ≡ true
      → let l = record (cfg.peer_lookup) {
        by_route = rg.insert_entry cfg.peer_lookup.by_route e;
      } in
        find_route_for_ip rg (record cfg { peer_lookup = l }) ip ≡ panic
  unfolding find_route_for_ip
  find_route_for_ip-overlap cfg e ip f fs h fresh c =
      let (gs, found, len, mem) =
        laws.insert_finds cfg.peer_lookup.by_route e ip (f ∷ fs) h c fresh in
      rw found (pick_route-many gs (omega arith))
