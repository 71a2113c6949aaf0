-- ===== src/P2p/Discover.antt =====
-- p2p/discover.go: the loop of `Discover`, one event at a time. Times are in seconds.
use mynetwork.Common.{
  ℕ, ◌+◌, ◌*◌, ◌≤◌, ◌||◌, Bool, true, false, List, [], ◌∷◌, ◌++◌, leb, if◌then◌else◌, arith,
  Bool-cases, inl, inr,
}
use mynetwork.Config.{PeerId, Peer}

-- What the loop receives: a call of `Rediscover`, or a tick, with whether each peer is connected and
-- whether dialling it succeeds.
pub data Event : Type 0 where
  discover_now : Event
  tick : (PeerId → Bool) → (PeerId → Bool) → Event

-- The duration, how often the DHT was bootstrapped again, and the peers dialled so far.
pub record Discovery : Type 0 where
  pub dur : ℕ
  pub bootstraps : ℕ
  pub dialled : List PeerId

-- Every peer that is not connected is dialled; the first result is `connectedToAny`.
unfoldable pub connect_peers : (PeerId → Bool) → (PeerId → Bool) → List Peer → Bool × List PeerId
connect_peers is_connected dials [] = (false, [])
connect_peers is_connected dials (p ∷ ps) =
    let (any_other, dialled) = connect_peers is_connected dials ps in
    if is_connected p.id then (true, dialled) else (dials p.id || any_other, p.id ∷ dialled)

unfoldable pub discover_step : List Peer → Event → Discovery → Discovery
unfolding connect_peers
discover_step peers discover_now s = record s { dur = 3 }
discover_step peers (tick is_connected dials) s =
    let (connected_to_any, dialled) = connect_peers is_connected dials peers in
    if connected_to_any
    then record s {
      dur = if leb 60 (s.dur * 2) then 60 else s.dur * 2;
      dialled = s.dialled ++ dialled;
    }
    else record { dur = 10; bootstraps = s.bootstraps + 1; dialled = s.dialled ++ dialled }

unfoldable pub discover : List Peer → List Event → Discovery → Discovery
unfolding discover_step
discover peers [] s = s
discover peers (e ∷ es) s = discover peers es (discover_step peers e s)

-- The start of the loop.
abbrev pub started : Discovery
started = record { dur = 1; bootstraps = 0; dialled = [] }

discover_step-dur :
    (peers : List Peer) (e : Event) (s : Discovery)
    → 1 ≤ s.dur
    → s.dur ≤ 60
    → (1 ≤ (discover_step peers e s).dur) × ((discover_step peers e s).dur ≤ 60)
unfolding discover_step
discover_step-dur peers discover_now s low high = (omega arith, omega arith)
discover_step-dur peers (tick is_connected dials) s low high =
    elim (Bool-cases (connect_peers is_connected dials peers).0) [
      | inr none_connected ↦ (ground (arith, none_connected), ground (arith, none_connected))
      | inl connected ↦ elim (Bool-cases (leb 60 (s.dur * 2))) [
        | inl long ↦ (ground (arith, connected, long), ground (arith, connected, long))
        | inr short ↦ (ground (arith, connected, short), ground (arith, connected, short))
      ]
    ]

discover-within :
    (peers : List Peer) (es : List Event) (s : Discovery)
    → 1 ≤ s.dur
    → s.dur ≤ 60
    → (1 ≤ (discover peers es s).dur) × ((discover peers es s).dur ≤ 60)
unfolding discover
discover-within peers [] s low high = (low, high)
discover-within peers (e ∷ es) s low high =
    let (low', high') = discover_step-dur peers e s low high in
    discover-within peers es (discover_step peers e s) low' high'

-- Whatever the ticks find and whenever a rediscovery is asked for, the time to the next tick stays
-- between one second and a minute.
pub discover-bounds :
    (peers : List Peer) (es : List Event)
    → (1 ≤ (discover peers es started).dur) × ((discover peers es started).dur ≤ 60)
discover-bounds peers es = discover-within peers es started (omega arith) (omega arith)
