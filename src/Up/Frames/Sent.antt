-- ===== src/Up/Frames/Sent.antt =====
-- From `sendPacket` of one node to `streamHandler` of the other.
use mynetwork.Common.{ℕ, true, List, [], ◌∷◌, ◌++◌, Bytes, length, none}
use mynetwork.Config.{PeerId}
use mynetwork.Up.Frames.{put_uint16, Pieces}
use mynetwork.Up.Frames.RoundTrip.{CutOf}
use mynetwork.Up.Send.{Streams, Answers, send_packet}

-- Every write on the open stream and the deadline succeed.
abbrev pub fine : Answers
fine = record {
  size_sent = true;
  body_sent = true;
  deadline_set = true;
  new_stream = none;
  new_deadline_set = true;
  new_size_sent = true;
  new_body_sent = true;
}

-- One call of sendPacket after another.
unfoldable pub send_all : Streams → PeerId → List Bytes → Streams
unfolding send_packet
send_all st dst [] = st
send_all st dst (packet ∷ packets) = send_all (send_packet fine st dst packet).0 dst packets

-- How writes arrive: every other one, of a size, in one piece, and those between cut in any way.
pub data Arrives : List (ℕ × Bytes) → Pieces → Type 0 where
  nothing : Arrives [] []
  two_writes :
      {s s' : ℕ} {size body : Bytes} {cs ps : Pieces} {writes : List (ℕ × Bytes)}
      → CutOf body cs
      → Arrives writes ps
      → Arrives ((s, size) ∷ (s', body) ∷ writes) (size ∷ cs ++ ps)

frames : ℕ → List Bytes → List (ℕ × Bytes)
frames s [] = []
frames s (packet ∷ packets) = (s, put_uint16 (length packet)) ∷ (s, packet) ∷ frames s packets
