-- ===== src/P2p/Pex.antt =====
-- p2p/pex.go: peers ask each other for the addresses that they know.
pub mod RoundTrip
pub mod Finding
use mynetwork.Common.{
  Bool, true, false, List, [], ◌∷◌, ◌++◌, map, Bytes, codes, bytes_eq, split, Option, none, some,
  Outcome, ok, err, panic, fatal, if◌then◌else◌, any,
}
use mynetwork.Config.{PeerId, Peer}

-- The code outside the repository: the text of an ID and back, the texts of the addresses that the
-- peer store has for a peer, and the parser of addresses, which are known by their texts.
pub record PexHost : Type 0 where
  pub id_string : PeerId → Bytes
  pub peer_decode : Bytes → Outcome PeerId
  pub new_multiaddr : Bytes → Outcome Bytes
  pub addrs : PeerId → List Bytes

pub record AddrInfo : Type 0 where
  pub id : PeerId
  pub addrs : List Bytes

-- How the handler leaves its stream.
pub data StreamEnd : Type 0 where
  was_reset : StreamEnd
  was_closed : StreamEnd
  left_open : StreamEnd

-- The writes one after the other, until one fails.
unfoldable pub write_lines : (Bytes → Bool) → List Bytes → List Bytes × StreamEnd
write_lines write [] = ([], was_closed)
write_lines write (l ∷ ls) =
    let (written, end) = write_lines write ls in
    if write l then (l ∷ written, end) else ([], was_reset)

module _ (h : PexHost) where
  abbrev pub pex_line : PeerId → Bytes → Bytes
  pex_line id a = h.id_string id ++ b'|' ∷ a ++ b'\n' ∷ []

  -- The lines that the handler writes: for every peer but the one that asks, every address.
  unfoldable pub pex_lines : List Peer → PeerId → List Bytes
  unfolding bytes_eq
  pex_lines [] remote = []
  pex_lines (p ∷ ps) remote =
      let rest = pex_lines ps remote in
      if bytes_eq p.id remote then rest else map (pex_line p.id) (h.addrs p.id) ++ rest

  -- `request` is the line that was read, without its end, or nothing if the read failed.
  unfoldable pub pex_handler :
      List Peer → PeerId → Option Bytes → (Bytes → Bool) → List Bytes × StreamEnd
  unfolding pex_lines write_lines bytes_eq
  pex_handler peers remote request write =
      let answered : List Bytes × StreamEnd = elim request [
        | none ↦ ([], was_reset)
        | some str ↦
            if bytes_eq str (codes "r")
            then write_lines write (pex_lines peers remote)
            else ([], left_open)
      ] in
      if any (λ (p : Peer). bytes_eq p.id remote) peers then answered else ([], was_reset)

  -- One line of the answer: `splits[1]` of a line that has no second part panics.
  unfoldable pub parse_line : Bytes → Outcome AddrInfo
  unfolding split
  parse_line str = elim (split b'|' str) [
    | id_str ∷ addr_str ∷ more ↦ elim (h.peer_decode id_str) [
      | ok peer_id ↦ elim (h.new_multiaddr addr_str) [
        | ok ma ↦ ok (record { id = peer_id; addrs = ma ∷ [] })
        | err m ↦ err m
        | fatal ↦ fatal
        | panic ↦ panic
      ]
      | err m ↦ err m
      | fatal ↦ fatal
      | panic ↦ panic
    ]
    | _ ↦ panic
  ]

  -- The loop over the parts of what arrived between line ends. The last part has no end, so that the
  -- read of it fails: by the end of the stream, or by the given error.
  unfoldable pub read_infos : Option Bytes → List Bytes → List AddrInfo → Outcome (List AddrInfo)
  unfolding parse_line
  read_infos failure [] infos = ok infos
  read_infos failure (part ∷ []) infos = elim failure [ none ↦ ok infos | some m ↦ err m ]
  read_infos failure (line ∷ part ∷ parts) infos = elim (parse_line line) [
    | ok info ↦ read_infos failure (part ∷ parts) (infos ++ info ∷ [])
    | err m ↦ err m
    | fatal ↦ fatal
    | panic ↦ panic
  ]

  -- The loop over the peers, which returns in its first round: `dial` opens the stream,
  -- writes the request, ignoring its error, and gives what arrives from a peer and how the reading fails, or the error of the new stream.
  unfoldable pub request_pex :
      (PeerId → Outcome (Bytes × Option Bytes)) → List PeerId → Outcome (List AddrInfo)
  unfolding read_infos split
  request_pex dial [] = ok []
  request_pex dial (p ∷ ps) = elim (dial p) [
    | ok (arrived, failure) ↦ read_infos failure (split b'\n' arrived) []
    | err m ↦ err m
    | fatal ↦ fatal
    | panic ↦ panic
  ]

  -- The addresses that the infos have for a peer.
  unfoldable pub addrs_for : PeerId → List AddrInfo → List Bytes
  unfolding bytes_eq
  addrs_for target [] = []
  addrs_for target (ai ∷ infos) =
      let rest = addrs_for target infos in if bytes_eq ai.id target then ai.addrs ++ rest else rest

  -- `PeXRouting.FindPeer`.
  unfoldable pub pex_find_peer :
      (PeerId → Outcome (Bytes × Option Bytes)) → List Peer → PeerId → Outcome AddrInfo
  unfolding request_pex addrs_for bytes_eq
  pex_find_peer dial vpn_peers target =
      let asked : Outcome AddrInfo = elim (request_pex dial (map (λ (p : Peer). p.id) vpn_peers)) [
        | ok infos ↦ ok (record { id = target; addrs = addrs_for target infos })
        | err m ↦ err m
        | fatal ↦ fatal
        | panic ↦ panic
      ] in
      if any (λ (p : Peer). bytes_eq p.id target) vpn_peers
      then asked
      else err (codes "routing: not found")
