-- ===== src/Config/Consistency.antt =====
-- The invariant of a configuration's tables, and that `AddPeer` preserves it.
use mynetwork.Common.{
  subst, ◌≡◌, refl, sym, ◌∙◌, ap, ◌++◌, [], ◌∷◌, List, true, ◌⊎◌, inl, inr, some, Bytes, bytes_eq,
  bytes_eq_iff, put, get, get-put, get-put_self, is_some, is_some-put, Dict, to_lower, take, drop,
  cidr_mask, All, All-append, All-mono, Bool-cases, if◌then◌else◌,
}
use mynetwork.Config.{PeerId, Peer, RouteTableEntry, Ranger, PeerLookup, Config}
use mynetwork.Config.Ids.{mk_builtin_addr4, mk_builtin_addr6, mk_net_id, addr6_prefix}
use mynetwork.Config.Ids.Shape.{mk_builtin_addr6-mk_net_id, length-mk_net_id, four_elems}
use mynetwork.Config.Update.{mk_peer, net_id_of, index_peer, add_peer}

-- The addresses of a peer are those that its ID determines.
pub record IsDerived (p : Peer) : Type 0 where
  pub addr4 : p.builtin_addr4 ≡ mk_builtin_addr4 p.id
  pub addr6 : p.builtin_addr6 ≡ mk_builtin_addr6 p.id

pub mk_peer-IsDerived : (name : Bytes) (id : PeerId) → IsDerived (mk_peer name id)
mk_peer-IsDerived name id = record { addr4 = refl; addr6 = refl }

-- The slice of the address that the lookup table goes by is the network ID.
pub net_id_of-IsDerived : (p : Peer) → IsDerived p → net_id_of p ≡ mk_net_id p.id
net_id_of-IsDerived p d =
    let (x, y, z, w, e) = four_elems (mk_net_id p.id) (length-mk_net_id p.id) in
    ap (λ a. take 4 (drop 12 a))
      (d.addr6 ∙ mk_builtin_addr6-mk_net_id p.id ∙ ap (λ n. addr6_prefix ++ n) e)
    ∙ sym e

-- Every entry of the two dictionaries stands under the key of its peer, and every peer has an entry
-- under its own keys, its own or that of a later peer with the same key.
pub record IsIndexed (unicode_lower : Bytes → Bytes) (ps : List Peer) (names nets : Dict Peer)
    : Type 0 where
  pub derived : All IsDerived ps
  pub net_sound : (k : Bytes) (p : Peer) → get nets k ≡ some p → IsDerived p × (mk_net_id p.id ≡ k)
  pub net_complete : All (λ p. is_some (get nets (mk_net_id p.id)) ≡ true) ps
  pub name_sound :
      (k : Bytes) (p : Peer)
      → get names k ≡ some p
      → IsDerived p × (to_lower unicode_lower p.name ≡ k)
  pub name_complete :
      All (λ p. (p.name ≡ []) ⊎ (is_some (get names (to_lower unicode_lower p.name)) ≡ true)) ps

-- A statement about the entries of a dictionary survives an insertion that satisfies it.
module _ (P : Bytes → Peer → Type 0) where
  sound-put :
      (k : Bytes) (v : Peer) (m : Dict Peer)
      → ((j : Bytes) (p : Peer) → get m j ≡ some p → P j p)
      → P k v
      → (j : Bytes) (p : Peer) → get (put m k v) j ≡ some p
      → P j p
  sound-put k v m h q j p e =
      let e' : (if bytes_eq k j then some v else get m j) ≡ some p = sym (get-put m k j v) ∙ e in
      elim (Bool-cases (bytes_eq k j)) [
        | inl same ↦
            let here : some v ≡ some p = rw same at e' in
            let same_peer : v ≡ p = cc in
            subst (P j) same_peer (subst (λ x. P x v) ((bytes_eq_iff k j).0 same) q)
        | inr other ↦ h j p (rw other at e')
      ]

-- A key for each peer is still there after an insertion under the key of one more peer.
module _ (key : Peer → Bytes) where
  complete-put :
      (ps : List Peer) (p : Peer) (m : Dict Peer)
      → All (λ x. is_some (get m (key x)) ≡ true) ps
      → All (λ x. is_some (get (put m (key p) p) (key x)) ≡ true) (ps ++ p ∷ [])
  complete-put ps p m h =
      All-append _ ps (p ∷ []) (All-mono _ ps (λ x. is_some-put m (key p) (key x) p) h)
        (rw (get-put_self m (key p) p) refl, tt)

  named_complete-put :
      (ps : List Peer) (p : Peer) (m : Dict Peer)
      → All (λ x. (x.name ≡ []) ⊎ (is_some (get m (key x)) ≡ true)) ps
      → All (λ x. (x.name ≡ []) ⊎ (is_some (get (put m (key p) p) (key x)) ≡ true)) (ps ++ p ∷ [])
  named_complete-put ps p m h =
      All-append _ ps (p ∷ [])
        (All-mono _ ps
          (λ x. elim [ inl e ↦ inl e | inr f ↦ inr (is_some-put m (key p) (key x) p f) ]) h)
        (inr (rw (get-put_self m (key p) p) refl), tt)

module _ (u : Bytes → Bytes) (ps : List Peer) (p : Peer) (d : IsDerived p) (names nets : Dict Peer)
    (h : IsIndexed u ps names nets) where
  All-IsDerived : All IsDerived (ps ++ p ∷ [])
  All-IsDerived = All-append IsDerived ps (p ∷ []) h.derived (d, tt)

  net_step :
      (k : Bytes) (x : Peer)
      → get (put nets (net_id_of p) p) k ≡ some x
      → IsDerived x × (mk_net_id x.id ≡ k)
  net_step =
      sound-put (λ k x. IsDerived x × (mk_net_id x.id ≡ k)) (net_id_of p) p nets h.net_sound
        (d, sym (net_id_of-IsDerived p d))

  net_complete_step :
      All (λ x. is_some (get (put nets (net_id_of p) p) (mk_net_id x.id)) ≡ true) (ps ++ p ∷ [])
  net_complete_step =
      rw (net_id_of-IsDerived p d) (complete-put (λ x. mk_net_id x.id) ps p nets h.net_complete)

  -- A peer with no name is in no dictionary of names.
  unnamed-IsIndexed : p.name ≡ [] → IsIndexed u (ps ++ p ∷ []) names (put nets (net_id_of p) p)
  unnamed-IsIndexed e = record {
    derived = All-IsDerived;
    net_sound = net_step;
    net_complete = net_complete_step;
    name_sound = h.name_sound;
    name_complete = All-append _ ps (p ∷ []) h.name_complete (inl e, tt);
  }

  named-IsIndexed :
      IsIndexed u (ps ++ p ∷ []) (put names (to_lower u p.name) p) (put nets (net_id_of p) p)
  named-IsIndexed = record {
    derived = All-IsDerived;
    net_sound = net_step;
    net_complete = net_complete_step;
    name_sound =
        sound-put (λ k x. IsDerived x × (to_lower u x.name ≡ k)) (to_lower u p.name) p names
          h.name_sound (d, refl);
    name_complete = named_complete-put (λ x. to_lower u x.name) ps p names h.name_complete;
  }

pub index_peer-IsIndexed :
    {T : Type 0} (rg : Ranger T) (u : Bytes → Bytes) (ps : List Peer) (p : Peer) (l : PeerLookup T)
    → IsIndexed u ps l.by_name l.by_net_id
    → IsDerived p
    → IsIndexed u (ps ++ p ∷ []) (index_peer rg u p l).by_name (index_peer rg u p l).by_net_id
unfolding index_peer
index_peer-IsIndexed rg u ps p l h d = elim (Bool-cases (bytes_eq p.name [])) [
  | inl empty ↦
      rw empty
        (unnamed-IsIndexed u ps p d l.by_name l.by_net_id h ((bytes_eq_iff p.name []).0 empty))
  | inr named ↦ rw named (named-IsIndexed u ps p d l.by_name l.by_net_id h)
]

-- The route table of a list of peers: each peer's two host routes were inserted when it joined, for the
-- addresses of its ID and with the peer as their target; other routes may have been inserted between.
pub data IsRouted {T : Type 0} (rg : Ranger T) : List Peer → T → Type 0 where
  no_peers : IsRouted rg [] rg.empty
  another_route :
      {ps : List Peer} {t : T} (e : RouteTableEntry)
      → IsRouted rg ps t
      → IsRouted rg ps (rg.insert_entry t e)
  host_routes :
      {ps : List Peer} {t : T} (p : Peer)
      → IsRouted rg ps t
      → IsRouted rg (ps ++ p ∷ []) (
          rg.insert_entry
            (rg.insert_entry t (record {
              net = record { ip = mk_builtin_addr4 p.id; mask = cidr_mask 32 32 };
              target = p;
            }))
            (record {
              net = record { ip = mk_builtin_addr6 p.id; mask = cidr_mask 128 128 };
              target = p;
            }))

-- The three lookup tables belong to the peers.
abbrev pub IsConsistent : {T : Type 0} → Ranger T → (Bytes → Bytes) → Config T → Type 0
IsConsistent rg u cfg =
    IsIndexed u cfg.peers cfg.peer_lookup.by_name cfg.peer_lookup.by_net_id
    × IsRouted rg cfg.peers cfg.peer_lookup.by_route

-- `AddPeer`, whatever the name and the ID, keeps the tables by name, by network ID and by route consistent
-- with the list of peers, and appends exactly one peer. In the table by route that is, each peer's two
-- host routes have been inserted; it is not said which routes a later insertion has replaced.
pub add_peer-IsIndexed :
    {T : Type 0} (rg : Ranger T) (u : Bytes → Bytes) (cfg : Config T) (name : Bytes) (id : PeerId)
    → IsConsistent rg u cfg
    → let cfg' = add_peer rg u cfg name id in
      IsConsistent rg u cfg' × (cfg'.peers ≡ cfg.peers ++ mk_peer name id ∷ [])
unfolding add_peer index_peer
add_peer-IsIndexed rg u cfg name id (indexed, routed) = (
  (
    index_peer-IsIndexed rg u cfg.peers (mk_peer name id) cfg.peer_lookup indexed
        (mk_peer-IsDerived name id),
    IsRouted.host_routes (mk_peer name id) routed,
  ),
  refl,
)
