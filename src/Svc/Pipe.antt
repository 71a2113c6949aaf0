-- ===== src/Svc/Pipe.antt =====
-- svc/pipe.go: `pipe` copies between two streams until one of them ends.
pub mod Order
use mynetwork.Common.{List, [], ◌∷◌, ◌++◌, Bytes, Bool, true, false, Option, none, some}

-- Which of the two channels `select` takes its next message from.
pub data Side : Type 0 where
  first second : Side

-- The messages that `toChan` still has to send for each stream, `nil` after the last, and what has
-- been written to each stream.
pub record Piped : Type 0 where
  pub from1 : List Bytes
  pub from2 : List Bytes
  pub to1 : List Bytes
  pub to2 : List Bytes
  pub stopped : Bool

-- What a write of a message writes: all of it, or, when it gives an error, a part. The code looks at
-- neither result of Write.
unfoldable pub written : Bytes → Option Bytes → Bytes
written b none = b
written b (some part) = part

-- One round of the loop, with what becomes of its write.
unfoldable pub pipe_round : Side × Option Bytes → Piped → Piped
unfolding written
pipe_round (first, broken) s = elim s.from1 [
  | [] ↦ record s { stopped = true }
  | b1 ∷ rest ↦ record s { from1 = rest; to2 = s.to2 ++ written b1 broken ∷ [] }
]
pipe_round (second, broken) s = elim s.from2 [
  | [] ↦ record s { stopped = true }
  | b2 ∷ rest ↦ record s { from2 = rest; to1 = s.to1 ++ written b2 broken ∷ [] }
]

-- The loop over a schedule of the rounds; it ends when a channel gives nil.
unfoldable pub pipe : List (Side × Option Bytes) → Piped → Piped
unfolding pipe_round
pipe [] s = s
pipe (round ∷ rounds) s =
    let next = pipe_round round s in elim s.stopped [ true ↦ s | false ↦ pipe rounds next ]
