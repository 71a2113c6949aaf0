-- ===== src/Svc/Receiver.antt =====
-- svc/receiver.go: the handler of incoming service streams.
pub mod Handshake
use mynetwork.Common.{
  ℕ, Bool, true, false, List, [], ◌∷◌, Bytes, get, get_or, Option, none, some, is_some, Outcome, ok,
  err, panic, is_ok, if◌then◌else◌,
}
use mynetwork.Config.{PeerId}
use mynetwork.Config.Lookup.{find_peer}
use mynetwork.Svc.{Proxy, ServiceNetwork}
use mynetwork.Svc.Proxies.{rs_ok, rs_not_supported}

-- What the handler did with the stream; `handled` is the proxy whose handler it called.
pub record Received : Type 0 where
  pub reset : Bool
  pub closed : Bool
  pub wrote : List Bytes
  pub handled : Option Proxy

-- `read` is the answer to the read of two bytes into a buffer of zeros, and `write` to the writes.
unfoldable pub stream_handler :
    {T : Type 0}
    → ServiceNetwork T
    → PeerId
    → Outcome Bytes
    → (Bytes → Outcome (Unit {0}))
    → Received
unfolding find_peer get
stream_handler sn remote read write =
    let closed : Received = record { reset = false; closed = true; wrote = []; handled = none } in
    if is_some (find_peer sn.config.peers remote)
    then (elim read [
      | ok buf ↦
          let svc_id = get_or buf 0 0 ∷ get_or buf 1 0 ∷ [] in
          elim (get sn.listeners svc_id) [
            | some proxy ↦
                if is_ok (write (rs_ok ∷ []))
                then record closed { wrote = (rs_ok ∷ []) ∷ []; handled = some proxy }
                else closed
            | none ↦
                if is_ok (write (rs_not_supported ∷ []))
                then record closed { wrote = (rs_not_supported ∷ []) ∷ [] }
                else closed
          ]
      | _ ↦ closed
    ])
    else record closed { reset = true; closed = false }
