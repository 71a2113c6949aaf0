-- ===== src/Rpc/Server/Routing.antt =====
-- The actions add and del of `Route`.
use mynetwork.Common.{
  ◌≡◌, ◌≢◌, sym, ap, ◌∙◌, subst, true, List, [], ◌∷◌, ◌++◌, Bytes, codes, bytes_eq, none, some,
  Outcome-cases, ok, err, arith, Bool-cases, Option-cases, inl, inr, IpNet, ip_net_contains,
}
use mynetwork.Config.{Peer, Ranger}
use mynetwork.Config.Lookup.{find_route_for_ip, pick_route, find_peer_by_cli_ref}
use mynetwork.Config.Routes.{RangerLaws, insert_alone}
use mynetwork.Rpc.{RouteArgs, TunOption, route_option, remove_route_option, Externals, Daemon}
use mynetwork.Rpc.Server.{apply_option, add_route, route_add, remove_route, route_del, route}

module _ {T : Type 0} (rg : Ranger T) (x : Externals) (d : Daemon T) where
  -- What a call leaves behind that gives an error: the configuration as it was; and no option was
  -- applied, or one that failed; or a route was taken from the TUN device and given back; or it was taken
  -- and giving it back failed, so that the device has lost it. `applied` lists the options tried.
  pub data IsUndone : Daemon T → Type 0 where
    untouched : IsUndone d
    failed :
        (o : TunOption)
        → x.apply d.applied o ≢ none
        → IsUndone (record d { applied = d.applied ++ o ∷ [] })
    given_back :
        (n : IpNet)
        → x.apply d.applied (remove_route_option n) ≡ none
        → x.apply (d.applied ++ remove_route_option n ∷ []) (route_option n) ≡ none
        → IsUndone (record d {
          applied = (d.applied ++ remove_route_option n ∷ []) ++ route_option n ∷ [];
        })
    taken_away :
        (n : IpNet)
        → x.apply d.applied (remove_route_option n) ≡ none
        → x.apply (d.applied ++ remove_route_option n ∷ []) (route_option n) ≢ none
        → IsUndone (record d {
          applied = (d.applied ++ remove_route_option n ∷ []) ++ route_option n ∷ [];
        })

  add_route-err :
      (network : IpNet) (target : Peer) {m : Bytes}
      → (add_route rg x d network target).1 ≡ err m
      → IsUndone (add_route rg x d network target).0
  unfolding add_route apply_option
  add_route-err network target e = elim (Option-cases (x.apply d.applied (route_option network))) [
    | inl fine ↦ absurd (ground (arith, fine))
    | inr (message, bad) ↦
        rw (add_route, bad) (IsUndone.failed (route_option network) (λ fine. cc (fine, bad)))
  ]

  remove_route-err :
      (network : IpNet) {m : Bytes}
      → (remove_route rg x d network).1 ≡ err m
      → IsUndone (remove_route rg x d network).0
  unfolding remove_route apply_option
  remove_route-err network {m} e =
      elim (Option-cases (x.apply d.applied (remove_route_option network))) [
        | inr (message, bad) ↦
            rw (remove_route, bad)
              (IsUndone.failed (remove_route_option network) (λ fine. cc (fine, bad)))
        | inl fine ↦
            let refused : rg.remove_entry d.config.peer_lookup.by_route network ≡ err m =
              ground (arith, fine) in
            let again =
              x.apply (d.applied ++ remove_route_option network ∷ []) (route_option network) in
            elim (Option-cases again) [
              | inl back ↦ rw (remove_route, fine, refused) (IsUndone.given_back network fine back)
              | inr (message, bad) ↦
                  rw (remove_route, fine, refused)
                    (IsUndone.taken_away network fine (λ e'. cc (e', bad)))
            ]
      ]

  route_add-err :
      (args : List Bytes) {m : Bytes}
      → (route_add rg x d args).1 ≡ err m
      → IsUndone (route_add rg x d args).0
  unfolding route_add
  route_add-err [] e = IsUndone.untouched
  route_add-err (cidr ∷ []) e = IsUndone.untouched
  route_add-err (cidr ∷ target_ref ∷ more ∷ rest) e = IsUndone.untouched
  route_add-err (cidr ∷ target_ref ∷ []) e = elim (Outcome-cases (x.parse_cidr cidr)) [
    | inr bad ↦ subst IsUndone (sym (ground (arith, bad))) IsUndone.untouched
    | inl (network, parsed) ↦
        elim (Option-cases (find_peer_by_cli_ref x.id_string d.config.peers target_ref)) [
          | inl missing ↦ subst IsUndone (sym (ground (arith, parsed, missing))) IsUndone.untouched
          | inr (target, found) ↦
              let r : route_add rg x d (cidr ∷ target_ref ∷ []) ≡ add_route rg x d network target =
                ground (arith, parsed, found) in
              subst (λ t. IsUndone t.0) (sym r)
                (add_route-err network target (sym (ap (λ t. t.1) r) ∙ e))
        ]
  ]

  route_del-err :
      (args : List Bytes) {m : Bytes}
      → (route_del rg x d args).1 ≡ err m
      → IsUndone (route_del rg x d args).0
  unfolding route_del
  route_del-err [] e = IsUndone.untouched
  route_del-err (cidr ∷ more ∷ rest) e = IsUndone.untouched
  route_del-err (cidr ∷ []) e = elim (Outcome-cases (x.parse_cidr cidr)) [
    | inr bad ↦ subst IsUndone (sym (ground (arith, bad))) IsUndone.untouched
    | inl (network, parsed) ↦
        let r : route_del rg x d (cidr ∷ []) ≡ remove_route rg x d network =
          ground (arith, parsed) in
        subst (λ t. IsUndone t.0) (sym r) (remove_route-err network (sym (ap (λ t. t.1) r) ∙ e))
  ]

  -- A call of `Route` that gives an error, for any action and any arguments, leaves the configuration
  -- as it was; and of the TUN device one of four things holds: it was not called; its only call failed; a
  -- route was taken from it and given back without an error; or a route was taken from it and giving it
  -- back failed too, an error that the code ignores.
  pub route-err :
      (args : RouteArgs) {m : Bytes}
      → (route rg x d args).1 ≡ err m
      → IsUndone (route rg x d args).0
  unfolding route
  route-err args e = elim (Bool-cases (bytes_eq args.action (codes "show"))) [
    | inl show ↦ rw (route, show) IsUndone.untouched
    | inr not_show ↦ elim (Bool-cases (bytes_eq args.action (codes "add"))) [
      | inl add ↦
          rw (route, not_show, add) (route_add-err args.args (rw (route, not_show, add) at e))
      | inr not_add ↦ elim (Bool-cases (bytes_eq args.action (codes "del"))) [
        | inl del ↦
            rw (route, not_show, not_add, del)
              (route_del-err args.args (rw (route, not_show, not_add, del) at e))
        | inr no_action ↦ rw (route, not_show, not_add, no_action) IsUndone.untouched
      ]
    ]
  ]

module _ {T : Type 0} (rg : Ranger T) (laws : RangerLaws rg) (u : Bytes → Bytes) (x : Externals)
    (d : Daemon T) where
  -- After a `Route` with the action add whose network parses, whose second argument refers to a peer and
  -- whose route the TUN device takes, every address of the network that no network held before is routed
  -- to that peer, over a route table that obeys its laws.
  pub route-find_route_for_ip :
      (cidr target_ref ip : Bytes) (network : IpNet) (target : Peer)
      → x.parse_cidr cidr ≡ ok network
      → find_peer_by_cli_ref x.id_string d.config.peers target_ref ≡ some target
      → x.apply d.applied (route_option network) ≡ none
      → rg.containing_networks d.config.peer_lookup.by_route ip ≡ ok []
      → ip_net_contains network ip ≡ true
      → find_route_for_ip rg
          (route rg x d (record { action = codes "add"; args = cidr ∷ target_ref ∷ [] })).0.config
          ip
        ≡ ok (some (record { net = network; target = target }))
  unfolding route route_add add_route apply_option find_route_for_ip
  route-find_route_for_ip cidr target_ref ip network target parsed found applied unheld holds =
      let after : (route rg x d (record {
        action = codes "add";
        args = cidr ∷ target_ref ∷ [];
      })).0.config.peer_lookup.by_route
          ≡ rg.insert_entry d.config.peer_lookup.by_route
              (record { net = network; target = target }) =
        ground (arith, parsed, found, applied) in
      ap (λ t. pick_route (rg.containing_networks t ip)) after
      ∙ ap pick_route (
          insert_alone rg laws u d.config.peer_lookup.by_route
            (record { net = network; target = target }) ip unheld holds)
