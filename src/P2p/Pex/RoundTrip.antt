-- ===== src/P2p/Pex/RoundTrip.antt =====
-- What one node asks by PeX is what the other has.
use mynetwork.Common.{
  ◌≡◌, refl, sym, ap, ◌∙◌, true, List, [], ◌∷◌, ◌++◌, append_assoc, append-nil, map, Bytes, codes,
  bytes_eq, split, split_free, split-nonempty, split-append, IsFree, none, some, ok, if◌then◌else◌,
  any, All, All-append, arith, Bool-cases, inl, inr,
}
use mynetwork.Config.{PeerId, Peer}
use mynetwork.P2p.Pex.{
  PexHost, pex_line, pex_lines, write_lines, pex_handler, AddrInfo, parse_line, read_infos,
  request_pex,
}

-- A text that can stand in a line.
pub record IsPart (s : Bytes) : Type 0 where
  pub no_bar : IsFree b'|' s
  pub no_end : IsFree b'\n' s

-- The texts of IDs and addresses are parts of a line, and they are parsed back.
pub record HostLaws (h : PexHost) : Type 0 where
  pub id_part : (id : PeerId) → IsPart (h.id_string id)
  pub id_back : (id : PeerId) → h.peer_decode (h.id_string id) ≡ ok id
  pub addr_part : (id : PeerId) → All IsPart (h.addrs id)
  pub addr_back : (id : PeerId) → All (λ a. h.new_multiaddr a ≡ ok a) (h.addrs id)

-- The text of a list of lines.
pub concat : List Bytes → Bytes
concat [] = []
concat (l ∷ ls) = l ++ concat ls

concat-append : (ls ms : List Bytes) → concat (ls ++ ms) ≡ concat ls ++ concat ms
unfolding concat
concat-append [] ms = refl
concat-append (l ∷ ls) ms =
    ap (λ t. l ++ t) (concat-append ls ms) ∙ sym (append_assoc l (concat ls) (concat ms))

write_lines-all : (ls : List Bytes) → (write_lines (λ l. true) ls).0 ≡ ls
unfolding write_lines
write_lines-all [] = refl
write_lines-all (l ∷ ls) = ap (λ t. l ∷ t) (write_lines-all ls)

module _ (h : PexHost) where
  abbrev info : PeerId → Bytes → AddrInfo
  info id a = record { id = id; addrs = a ∷ [] }

  -- The address infos that the lines of the handler stand for.
  pub known_addrs : List Peer → PeerId → List AddrInfo
  known_addrs [] remote = []
  known_addrs (p ∷ ps) remote =
      let rest = known_addrs ps remote in
      if bytes_eq p.id remote then rest else map (info p.id) (h.addrs p.id) ++ rest

  -- A line without its end.
  abbrev line : PeerId → Bytes → Bytes
  line id a = h.id_string id ++ b'|' ∷ a

  parse_line-line :
      (laws : HostLaws h) (id : PeerId) (a : Bytes)
      → IsPart a
      → h.new_multiaddr a ≡ ok a
      → parse_line h (line id a) ≡ ok (info id a)
  unfolding parse_line
  parse_line-line laws id a part back =
      let parts : split b'|' (line id a) ≡ h.id_string id ∷ a ∷ [] =
        split-append b'|' (h.id_string id) a (laws.id_part id).no_bar
        ∙ ap (λ t. h.id_string id ∷ t) (split_free b'|' a part.no_bar) in
      rw (parse_line, parts, laws.id_back id, back) refl

  split-pex_line :
      (laws : HostLaws h) (id : PeerId) (a t : Bytes)
      → IsPart a
      → split b'\n' (pex_line h id a ++ t) ≡ line id a ∷ split b'\n' t
  split-pex_line laws id a t part =
      let regroup : pex_line h id a ++ t ≡ line id a ++ b'\n' ∷ t =
        append_assoc (line id a) (b'\n' ∷ []) t in
      ap (split b'\n') regroup
      ∙ split-append b'\n' (line id a) t (
          All-append _ (h.id_string id) (b'|' ∷ a) (laws.id_part id).no_end
            ((λ e. omega (arith, e)), part.no_end))

  read_infos-line :
      (laws : HostLaws h) (id : PeerId) (a t : Bytes) (infos : List AddrInfo)
      → IsPart a
      → h.new_multiaddr a ≡ ok a
      → read_infos h none (split b'\n' (pex_line h id a ++ t)) infos
        ≡ read_infos h none (split b'\n' t) (infos ++ info id a ∷ [])
  unfolding read_infos
  read_infos-line laws id a t infos part back =
      let (x, xs, more) = split-nonempty b'\n' t in
      rw (read_infos, split-pex_line laws id a t part, more, parse_line-line laws id a part back)
        refl

  read_infos-addrs :
      (laws : HostLaws h) (id : PeerId) (as' : List Bytes) (t : Bytes) (infos : List AddrInfo)
      → All IsPart as'
      → All (λ a. h.new_multiaddr a ≡ ok a) as'
      → read_infos h none (split b'\n' (concat (map (pex_line h id) as') ++ t)) infos
        ≡ read_infos h none (split b'\n' t) (infos ++ map (info id) as')
  unfolding concat
  read_infos-addrs laws id [] t infos parts back =
      ap (read_infos h none (split b'\n' t)) (sym (append-nil infos))
  read_infos-addrs laws id (a ∷ as') t infos (part, parts) (b, back) =
      ap (λ s. read_infos h none (split b'\n' s) infos)
        (append_assoc (pex_line h id a) (concat (map (pex_line h id) as')) t)
      ∙ read_infos-line laws id a (concat (map (pex_line h id) as') ++ t) infos part b
      ∙ read_infos-addrs laws id as' t (infos ++ info id a ∷ []) parts back
      ∙ ap (read_infos h none (split b'\n' t))
          (append_assoc infos (info id a ∷ []) (map (info id) as'))

  read_infos-peers :
      (laws : HostLaws h) (ps : List Peer) (remote : PeerId) (infos : List AddrInfo)
      → read_infos h none (split b'\n' (concat (pex_lines h ps remote))) infos
        ≡ ok (infos ++ known_addrs ps remote)
  unfolding pex_lines known_addrs concat read_infos
  read_infos-peers laws [] remote infos = ap ok (sym (append-nil infos))
  read_infos-peers laws (p ∷ ps) remote infos = elim (Bool-cases (bytes_eq p.id remote)) [
    | inl asker ↦ rw asker (read_infos-peers laws ps remote infos)
    | inr other ↦ rw other (
        ap (λ s. read_infos h none (split b'\n' s) infos)
          (concat-append (map (pex_line h p.id) (h.addrs p.id)) (pex_lines h ps remote))
        ∙ read_infos-addrs laws p.id (h.addrs p.id) (concat (pex_lines h ps remote)) infos
            (laws.addr_part p.id) (laws.addr_back p.id)
        ∙ read_infos-peers laws ps remote (infos ++ map (info p.id) (h.addrs p.id))
        ∙ ap ok (append_assoc infos (map (info p.id) (h.addrs p.id)) (known_addrs ps remote)))
  ]

  -- A node that asks a peer whose configuration has the node, over a stream that carries everything,
  -- gets one address info for each address that the peer's store has, of every peer but the node itself,
  -- in order, and no other. The texts of IDs and addresses hold no bar and no line end, and are parsed
  -- back.
  pub request_pex-pex_handler :
      HostLaws h
      → (peers : List Peer) (remote asked : PeerId) (others : List PeerId)
      → any (λ (p : Peer). bytes_eq p.id remote) peers ≡ true
      → request_pex h
          (λ p. ok (concat (pex_handler h peers remote (some (codes "r")) (λ l. true)).0, none))
          (asked ∷ others)
        ≡ ok (known_addrs peers remote)
  unfolding request_pex pex_handler bytes_eq
  request_pex-pex_handler laws peers remote asked others known =
      let lines : (pex_handler h peers remote (some (codes "r")) (λ l. true)).0
          ≡ pex_lines h peers remote =
        rw (pex_handler, known) (write_lines-all (pex_lines h peers remote)) in
      ap (λ ls. read_infos h none (split b'\n' (concat ls)) []) lines
      ∙ read_infos-peers laws peers remote []
