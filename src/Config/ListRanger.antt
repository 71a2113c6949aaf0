-- ===== src/Config/ListRanger.antt =====
-- A route table as a list of entries: a concrete `cidranger.Ranger` that obeys its laws.
use mathlib.Core.List.{Memᴰ}
use mynetwork.Common.{
  ok-injective, subst, ◌≡◌, refl, ap, sym, ◌∙◌, Bool, true, false, not, ◌&&◌, List, [], ◌∷◌, Option,
  none, some, Bytes, bytes_eq, bytes_eq_iff, ◌≢◌, arith, ok, All, IpNet, ip_net_contains,
  if◌then◌else◌, Bool-cases, inl, inr,
}
use mynetwork.Config.{RouteTableEntry, Ranger}
use mynetwork.Config.Routes.{RangerLaws}

abbrev Table : Type 0
Table = List RouteTableEntry

net_eq : IpNet → IpNet → Bool
unfolding bytes_eq
net_eq m n = bytes_eq m.ip n.ip && bytes_eq m.mask n.mask

net_eq_sound : (m n : IpNet) → net_eq m n ≡ true → m ≡ n
unfolding net_eq
net_eq_sound m n h = ground (arith, bytes_eq_iff m.ip n.ip, bytes_eq_iff m.mask n.mask)

filter_by : (RouteTableEntry → Bool) → Table → Table
filter_by test [] = []
filter_by test (e ∷ t) = if test e then e ∷ filter_by test t else filter_by test t

drop_net : IpNet → Table → Table
unfolding filter_by net_eq
drop_net n t = filter_by (λ e. not (net_eq e.net n)) t

find_net : IpNet → Table → Option RouteTableEntry
find_net n [] = none
find_net n (e ∷ t) = if net_eq e.net n then some e else find_net n t

-- Networks of one family are covered by the whole of the family, which has no bits of mask.
unfoldable pub list_ranger : Ranger (List RouteTableEntry)
unfolding drop_net filter_by find_net ip_net_contains
list_ranger = record {
  empty = [];
  insert_entry = λ t e. e ∷ drop_net e.net t;
  remove_entry = λ t n. ok (drop_net n t, find_net n t);
  covered_networks = λ t n. ok (filter_by (λ e. ip_net_contains n e.net.ip) t);
  containing_networks = λ t ip. ok (filter_by (λ e. ip_net_contains e.net ip) t);
}

module _ (ip : Bytes) (n : IpNet) where
  abbrev holds : RouteTableEntry → Bool
  holds e = ip_net_contains e.net ip

  filter_by-drop_net_fresh :
      (t : Table)
      → All (λ f. f.net ≢ n) (filter_by holds t)
      → filter_by holds (drop_net n t) ≡ filter_by holds t
  unfolding drop_net
  filter_by-drop_net_fresh [] h = refl
  filter_by-drop_net_fresh (e ∷ t) h = elim (Bool-cases (holds e)) [
    | inl held ↦
        let (ne, h') : (e.net ≢ n) × All (λ f. f.net ≢ n) (filter_by holds t) =
          rw (held, filter_by) at h in
        ground (arith, net_eq_sound e.net n, filter_by-drop_net_fresh t h')
    | inr other ↦ ground (arith, filter_by-drop_net_fresh t (rw (other, filter_by) at h))
  ]

  filter_by-drop_net_other :
      (t : Table)
      → ip_net_contains n ip ≡ false
      → filter_by holds (drop_net n t) ≡ filter_by holds t
  unfolding drop_net
  filter_by-drop_net_other [] h = refl
  filter_by-drop_net_other (e ∷ t) h = elim (Bool-cases (net_eq e.net n)) [
    | inl same ↦
        let gone : holds e ≡ false = rw (net_eq_sound e.net n same) h in
        ground (arith, filter_by-drop_net_other t h)
    | inr differs ↦ ground (arith, filter_by-drop_net_other t h)
  ]

pub list_ranger-RangerLaws : RangerLaws list_ranger
unfolding list_ranger
list_ranger-RangerLaws = record {
  empty_finds = λ ip. refl;
  insert_finds = λ t e ip es found c fresh.
      let found' : filter_by (holds ip e.net) t ≡ es = ok-injective found in
      let same =
        filter_by-drop_net_fresh ip e.net t (subst (All (λ f. f.net ≢ e.net)) (sym found') fresh)
        ∙ found' in
      (e ∷ es, rw c (ap (λ x. ok (e ∷ x)) same), refl, Memᴰ.head refl);
  insert_other = λ t e ip c. rw c (ap ok (filter_by-drop_net_other ip e.net t c));
}
