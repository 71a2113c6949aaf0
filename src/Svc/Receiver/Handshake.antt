-- ===== src/Svc/Receiver/Handshake.antt =====
-- The two ends of a service stream together: `RemoteServiceProxy` on one node and the stream
-- handler on the other.
use mynetwork.Common.{
  ◌≡◌, List, [], ◌∷◌, Bytes, get, none, is_some, Outcome, ok, err, arith, if◌then◌else◌,
}
use mynetwork.Config.{PeerId}
use mynetwork.Config.Lookup.{find_peer}
use mynetwork.Config.Ids.{mk_service_id}
use mynetwork.Config.Ids.Shape.{two_elems, length-mk_service_id}
use mynetwork.Svc.{ServiceNetwork}
use mynetwork.Svc.Proxies.{Handled, remote_handle}
use mynetwork.Svc.Receiver.{Received, stream_handler}

-- What the dialling side reads: the first write of the handler, or the error of a stream that was
-- reset or closed.
abbrev pub reply_of : Received → Outcome Bytes
reply_of r = first r.wrote
  where
    first : List Bytes → Outcome Bytes
    first [] = err []
    first (b ∷ bs) = ok b

-- The handler of the node `sn` for a stream from `client` that delivers the identifier and takes
-- every write.
abbrev pub served : {T : Type 0} → ServiceNetwork T → PeerId → Bytes → Received
served sn client svc_id = stream_handler sn client (ok svc_id) (λ b. ok tt)

-- A dialling node whose stream reaches `sn`.
abbrev pub dialled : {T : Type 0} → ServiceNetwork T → PeerId → Bytes → Handled
dialled sn client svc_id =
    remote_handle svc_id (record {
      open_stream = ok tt;
      write = λ b. ok tt;
      read = reply_of (served sn client svc_id);
    })

module _ {T : Type 0} (sn : ServiceNetwork T) (client : PeerId) (name : Bytes) where
  -- Over a stream that loses nothing both ends agree: the dialling node begins to pipe exactly when
  -- the other one has handed the stream to a proxy, which is when the dialling node is one of its
  -- peers and the service is registered; and that proxy is the registered one.
  pub handshake_agrees :
      ((dialled sn client (mk_service_id name)).piped
        ≡ is_some (served sn client (mk_service_id name)).handled)
      × ((served sn client (mk_service_id name)).handled ≡ (
          if is_some (find_peer sn.config.peers client)
          then get sn.listeners (mk_service_id name)
          else none))
  unfolding remote_handle stream_handler
  handshake_agrees =
      let (a, b, e) = two_elems (mk_service_id name) (length-mk_service_id name) in
      ground (arith, e)
