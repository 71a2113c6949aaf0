-- ===== src/Up/Send.antt =====
-- cli/up.go: `sendPacket`, one call after another. The calls that the source starts at the same
-- time share the map of streams with no lock on it; their interleavings are not modelled.
pub mod Live
use mynetwork.Common.{
  ℕ, Bool, true, false, ◌&&◌, List, [], ◌∷◌, ◌++◌, Bytes, Dict, get, put, remove, length, Option,
  none, some, if◌then◌else◌,
}
use mynetwork.Config.{PeerId}
use mynetwork.Up.Frames.{put_uint16}

-- `activeStreams`, with the streams that have been closed and what has been written, to which
-- stream. A stream is known by a number.
pub record Streams : Type 0 where
  pub active : Dict ℕ
  pub closed : List ℕ
  pub wire : List (ℕ × Bytes)

-- What the calls on streams answer during one call of `sendPacket`: the three on a stream that is
-- already there, the opening of a new one, and the three on that.
pub record Answers : Type 0 where
  pub size_sent : Bool
  pub body_sent : Bool
  pub deadline_set : Bool
  pub new_stream : Option ℕ
  pub new_deadline_set : Bool
  pub new_size_sent : Bool
  pub new_body_sent : Bool

-- "If we encounter an error when writing to a stream we should close that stream and delete it from
-- the active stream map."
abbrev pub give_up : Streams → PeerId → ℕ → List (ℕ × Bytes) → Streams
give_up st dst s written = record {
  active = remove st.active dst;
  closed = s ∷ st.closed;
  wire = st.wire ++ written;
}

-- The attempt on the stream that is already there, and whether it succeeded.
unfoldable pub reuse_stream : Answers → Streams → PeerId → ℕ → Bytes → Streams × Bool
unfolding remove
reuse_stream a st dst s packet =
    let size : ℕ × Bytes = (s, put_uint16 (length packet)) in
    if a.size_sent
    then if a.body_sent
      then if a.deadline_set
        then (record st { wire = st.wire ++ size ∷ (s, packet) ∷ [] }, true)
        else (give_up st dst s (size ∷ (s, packet) ∷ []), false)
      else (give_up st dst s (size ∷ []), false)
    else (give_up st dst s [], false)

-- The new stream; the second result is whether a rediscovery is asked for.
unfoldable pub open_stream : Answers → Streams → PeerId → Bytes → Streams × Bool
unfolding put
open_stream a st dst packet = elim a.new_stream [
  | none ↦ (st, true)
  | some s ↦
      let size : ℕ × Bytes = (s, put_uint16 (length packet)) in
      let done : Streams × Bool =
        if a.new_deadline_set
        then if a.new_size_sent
          then if a.new_body_sent
            then (
              record {
                active = put st.active dst s;
                closed = st.closed;
                wire = st.wire ++ size ∷ (s, packet) ∷ [];
              },
              false,
            )
            else (record st { closed = s ∷ st.closed; wire = st.wire ++ size ∷ [] }, false)
          else (record st { closed = s ∷ st.closed }, false)
        else (record st { closed = s ∷ st.closed }, false) in
      done
]

unfoldable pub send_packet : Answers → Streams → PeerId → Bytes → Streams × Bool
unfolding reuse_stream open_stream get
send_packet a st dst packet = elim (get st.active dst) [
  | none ↦ open_stream a st dst packet
  | some s ↦
      let (st', sent) = reuse_stream a st dst s packet in
      if sent then (st', false) else open_stream a st' dst packet
]
