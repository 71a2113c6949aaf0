-- ===== src/Up/Frames/Termination.antt =====
-- How many rounds `streamHandler` can make.
use mynetwork.Common.{
  ℕ, zero, suc, ◌+◌, ◌-◌, ◌*◌, ◌≤◌, ◌<◌, ◌≡◌, refl, true, false, is_some, Bool, List, [], ◌∷◌, ◌++◌,
  Bytes, length, length-drop, leb, get_or, drop, some, arith, Option-cases, Bool-cases, inl, inr,
}
use mynetwork.Config.{PeerId, Peer}
use mynetwork.Config.Lookup.{find_peer}
use mynetwork.Up.Frames.{
  Pieces, End, closed, waiting, reset, panicked, out_of_fuel, after_last, read_body, read_size,
  receive, stream_handler,
}

-- The bytes that are on the way, and one more for each piece.
unfoldable pub measure : Pieces → ℕ
measure [] = 0
measure (c ∷ ps) = suc (length c + measure ps)

read_size-measure :
    (buf : Bytes) (ps : Pieces) {buf' : Bytes} {ps' : Pieces}
    → read_size buf ps ≡ some (buf', ps')
    → measure ps' < measure ps
unfolding read_size measure
read_size-measure buf [] e = cc
read_size-measure buf ([] ∷ ps) {ps'} e =
    let same : ps ≡ ps' = ground arith in rw (← same) (omega arith)
read_size-measure buf ((lo ∷ []) ∷ ps) {ps'} e =
    let same : ps ≡ ps' = ground arith in rw (← same) (omega arith)
read_size-measure buf ((lo ∷ hi ∷ []) ∷ ps) {ps'} e =
    let same : ps ≡ ps' = ground arith in rw (← same) (omega arith)
read_size-measure buf ((lo ∷ hi ∷ b ∷ c) ∷ ps) {ps'} e =
    let same : (b ∷ c) ∷ ps ≡ ps' = ground arith in rw (← same) (omega arith)

read_body-measure :
    (n : ℕ) (acc : Bytes) (ps : Pieces) {packet : Bytes} {ps' : Pieces}
    → read_body n acc ps ≡ some (packet, ps')
    → measure ps' ≤ measure ps
unfolding read_body measure
read_body-measure zero acc ps {ps'} e = let same : ps ≡ ps' = ground arith in rw same (omega arith)
read_body-measure (suc n) acc [] e = cc
read_body-measure (suc n) acc (c ∷ ps) {packet} {ps'} e =
    elim (Bool-cases (leb (length c) (suc n))) [
      | inl fits ↦ omega (
        arith,
        read_body-measure (suc n - length c) (acc ++ c) ps {packet = packet} {ps' = ps'}
            (ground arith),
      )
      | inr longer ↦
          let same : drop (suc n) c ∷ ps ≡ ps' = ground arith in
          rw (← same) (omega (arith, length-drop (suc n) c))
    ]

-- How the handler may end for a node that is a peer of the configuration or not: it resets the stream of
-- a node that is none, with nothing written, and waits only on a stream that stays open.
pub data HasEnded (known idle : Bool) : List Bytes × End → Type 0 where
  by_reset : known ≡ false → HasEnded known idle ([], reset)
  by_close : (out : List Bytes) → known ≡ true → HasEnded known idle (out, closed)
  by_panic : (out : List Bytes) → known ≡ true → HasEnded known idle (out, panicked)
  by_waiting : (out : List Bytes) → known ≡ true → idle ≡ true → HasEnded known idle (out, waiting)

has_ended : Bool → End → Bool
has_ended idle reset = false
has_ended idle closed = true
has_ended idle panicked = true
has_ended idle waiting = idle
has_ended idle out_of_fuel = false

has_ended-HasEnded :
    (known idle : Bool) (r : List Bytes × End)
    → known ≡ true
    → has_ended idle r.1 ≡ true
    → HasEnded known idle r
unfolding has_ended
has_ended-HasEnded known idle (out, reset) k h = absurd (cc h)
has_ended-HasEnded known idle (out, closed) k h = HasEnded.by_close out k
has_ended-HasEnded known idle (out, panicked) k h = HasEnded.by_panic out k
has_ended-HasEnded known idle (out, waiting) k h = HasEnded.by_waiting out k h
has_ended-HasEnded known idle (out, out_of_fuel) k h = absurd (cc h)

last_ended : (idle : Bool) → has_ended idle (after_last idle) ≡ true
unfolding after_last has_ended
last_ended true = refl
last_ended false = refl

receive_ended :
    (fuel : ℕ) (deadline : Bytes → Bool) (idle : Bool) (buf : Bytes) (ps : Pieces)
    (out : List Bytes)
    → measure ps < fuel
    → has_ended idle (receive fuel deadline idle buf ps out).1 ≡ true
unfolding receive has_ended
receive_ended zero deadline idle buf ps out enough = elim enough [ ]
receive_ended (suc fuel) deadline idle buf ps out enough = elim (Option-cases (read_size buf ps)) [
  | inl ended ↦ ground (arith, ended, last_ended idle)
  | inr ((buf', ps'), got) ↦
      elim (Option-cases (read_body (get_or buf' 0 0 + 256 * get_or buf' 1 0) [] ps')) [
        | inl cut ↦ ground (arith, got, cut, last_ended idle)
        | inr ((packet, ps''), read) ↦
            let shrinks = read_size-measure buf ps got in
            let shrinks' =
              read_body-measure (get_or buf' 0 0 + 256 * get_or buf' 1 0) [] ps' read in
            ground (
              arith,
              got,
              read,
              last_ended idle,
              receive_ended fuel deadline idle buf' ps'' (out ++ packet ∷ [])
                  (omega (arith, shrinks, shrinks')),
            )
      ]
]

-- For a node that is not among the peers the handler resets the stream and has written nothing to the TUN
-- device; for a peer it ends by closing the stream or by a panic, or it waits in a read, which it does
-- only on a stream that the peer leaves open and sends no more on. Its loop does not go on for ever:
-- whatever the pieces and the answers, fuel for more rounds than there are bytes and pieces is not used up.
pub stream_handler-HasEnded :
    (fuel : ℕ) (peers : List Peer) (remote : PeerId) (deadline : Bytes → Bool) (idle : Bool)
    (ps : Pieces)
    → measure ps < fuel
    → HasEnded
        (is_some (find_peer peers remote))
        idle
        (stream_handler fuel peers remote deadline idle ps)
unfolding stream_handler
stream_handler-HasEnded fuel peers remote deadline idle ps enough =
    elim (Bool-cases (is_some (find_peer peers remote))) [
      | inl known ↦ rw known (
          has_ended-HasEnded true idle _ refl
            (receive_ended fuel deadline idle (0 ∷ 0 ∷ []) ps [] enough))
      | inr stranger ↦ rw stranger (HasEnded.by_reset refl)
    ]
