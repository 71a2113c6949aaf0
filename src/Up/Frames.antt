-- ===== src/Up/Frames.antt =====
-- cli/up.go: the frames on a stream between two nodes, as `sendPacket` writes them and as
-- `streamHandler` reads them.
pub mod RoundTrip
pub mod Sent
pub mod Termination
use mynetwork.Common.{
  ℕ, zero, suc, ◌+◌, ◌-◌, ◌*◌, ◌/◌, ◌%◌, Bool, true, false, List, [], ◌∷◌, ◌++◌, Bytes, length, leb,
  ltb, get_or, take, drop, Option, none, some, is_some, if◌then◌else◌,
}
use mynetwork.Config.{PeerId, Peer}
use mynetwork.Config.Lookup.{find_peer}

-- `binary.LittleEndian` of a `uint16`.
abbrev pub put_uint16 : ℕ → Bytes
put_uint16 n = n % 256 ∷ n / 256 % 256 ∷ []

-- What the peer's writes have become on the way: the pieces that reads get. A read of at most `n`
-- bytes gets one piece, or as much of it as fits. After the last piece it fails, or blocks for good when the
-- peer leaves the stream open and sends no more: no deadline is set for reads.
abbrev pub Pieces : Type 0
Pieces = List Bytes

-- How the handler ends, or that it waits in a read.
pub data End : Type 0 where
  closed : End
  waiting : End
  reset : End
  panicked : End
  out_of_fuel : End

-- What a read after the last piece leads to, when the stream is idle and when it has ended.
unfoldable pub after_last : Bool → End
after_last true = waiting
after_last false = closed

-- The loop `for plen < size`: the packet so far, and how much is missing.
unfoldable pub read_body : ℕ → Bytes → Pieces → Option (Bytes × Pieces)
read_body zero packet ps = some (packet, ps)
read_body (suc n) packet [] = none
read_body (suc n) packet (c ∷ ps) =
    let rest = read_body (suc n - length c) (packet ++ c) ps in
    if leb (length c) (suc n) then rest else some (packet ++ take (suc n) c, drop (suc n) c ∷ ps)

-- One read into the buffer of two bytes for the size, which keeps what is not overwritten.
unfoldable pub read_size : Bytes → Pieces → Option (Bytes × Pieces)
read_size buf [] = none
read_size buf ([] ∷ ps) = some (buf, ps)
read_size buf ((lo ∷ []) ∷ ps) = some (lo ∷ get_or buf 1 0 ∷ [], ps)
read_size buf ((lo ∷ hi ∷ []) ∷ ps) = some (lo ∷ hi ∷ [], ps)
read_size buf ((lo ∷ hi ∷ b ∷ c) ∷ ps) = some (lo ∷ hi ∷ [], (b ∷ c) ∷ ps)

-- The loop of the handler, with the packets that it has written to the TUN device. The packet buffer
-- has 1420 bytes, so `packet[plen:size]` panics for a greater size. `deadline` says whether the
-- deadline could be set after a packet, and `idle` whether the stream stays open after the last piece.
unfoldable pub receive : ℕ → (Bytes → Bool) → Bool → Bytes → Pieces → List Bytes → List Bytes × End
unfolding read_size read_body after_last
receive zero deadline idle buf ps out = (out, out_of_fuel)
receive (suc fuel) deadline idle buf ps out = elim (read_size buf ps) [
  | none ↦ (out, after_last idle)
  | some (buf', ps') ↦
      let size = get_or buf' 0 0 + 256 * get_or buf' 1 0 in
      let result : List Bytes × End = elim (read_body size [] ps') [
        | none ↦ (out, after_last idle)
        | some (packet, ps'') ↦
            let next = receive fuel deadline idle buf' ps'' (out ++ packet ∷ []) in
            if deadline packet then next else (out, closed)
      ] in
      if ltb 1420 size then (out, panicked) else result
]

-- The handler from its start, for a stream of the remote peer: it resets the stream of a node that is not
-- among the peers of the configuration.
unfoldable pub stream_handler :
    ℕ → List Peer → PeerId → (Bytes → Bool) → Bool → Pieces → List Bytes × End
unfolding receive find_peer
stream_handler fuel peers remote deadline idle ps =
    if is_some (find_peer peers remote)
    then receive fuel deadline idle (0 ∷ 0 ∷ []) ps []
    else ([], reset)
