-- ===== src/Rpc/Json/Client.antt =====
-- rpc/jsonrpc_client.go: the client of the JSON-RPC server.
use mynetwork.Common.{
  ℕ, suc, List, [], ◌∷◌, ◌++◌, Bytes, codes, Option, none, some, Outcome, ok, err, panic, fatal,
  ◌>>=◌,
}
use mynetwork.Rpc.{StatusReply, PeerInfo, RouteReply, AddPeerReply, NodeIpReply}
use mynetwork.Rpc.Json.{
  Json, null, number, text, array, object, Items, no_item, item, Members, no_member, member, ℤ,
  JsonRpcRequest, JsonRpcResponse,
}

-- The fields that its methods read and write.
pub record JsonRpcClient : Type 0 where
  pub url : Bytes
  pub next_id : ℕ

-- `encoding/json` and `net/http`: for the response, the decoding of the whole; for the result, its
-- encoding and the decoding into the struct of a reply.
pub record Wire : Type 0 where
  pub marshal : JsonRpcRequest → Outcome Bytes
  pub post : Bytes → Bytes → Outcome Bytes
  pub read_all : Bytes → Outcome Bytes
  pub unmarshal : Bytes → Outcome (JsonRpcResponse Json)
  pub marshal_result : Option Json → Outcome Bytes
  pub unmarshal_status : Bytes → Outcome StatusReply
  pub unmarshal_peers : Bytes → Outcome (List PeerInfo)
  pub unmarshal_route : Bytes → Outcome RouteReply
  pub unmarshal_add_peer : Bytes → Outcome AddPeerReply
  pub unmarshal_node_ip : Bytes → Outcome NodeIpReply
  pub format_int : ℤ → Bytes

-- `fmt.Errorf("…: %v", err)`.
abbrev pub wrap {ℓ} : {A : Type ℓ} → Bytes → Outcome A → Outcome A
wrap prefix (err m) = err (prefix ++ m)
wrap prefix (ok a) = ok a
wrap prefix fatal = fatal
wrap prefix panic = panic

abbrev pub items_of : List Bytes → Items
items_of [] = no_item
items_of (s ∷ ss) = item (text s) (items_of ss)

-- A nil slice is encoded as null.
abbrev pub list_json : Option (List Bytes) → Json
list_json none = null
list_json (some ss) = array (items_of ss)

-- The parameters of `Route` and of `AddPeer`.
abbrev pub route_params : Bytes → Option (List Bytes) → Members
route_params action args =
    member (codes "action") (text action) (member (codes "args") (list_json args) no_member)

abbrev pub add_peer_params : Bytes → Bytes → Members
add_peer_params name id =
    member (codes "id") (text id) (member (codes "name") (text name) no_member)

module _ (w : Wire) where
  abbrev pub request_of : JsonRpcClient → Bytes → Json → JsonRpcRequest
  request_of c method params = record {
    jsonrpc = codes "2.0";
    method = method;
    params = params;
    id = number c.next_id;
  }

  -- The request and what comes back for it.
  unfoldable pub exchange : Bytes → JsonRpcRequest → Outcome (JsonRpcResponse Json)
  exchange url req = do
    req_body ← wrap (codes "failed to marshal request: ") (w.marshal req)
    resp ← wrap (codes "failed to send request: ") (w.post url req_body)
    resp_body ← wrap (codes "failed to read response: ") (w.read_all resp)
    wrap (codes "failed to unmarshal response: ") (w.unmarshal resp_body)

  unfoldable pub call :
      JsonRpcClient → Bytes → Json → JsonRpcClient × Outcome (JsonRpcResponse Json)
  unfolding exchange
  call c method params = (
    record c { next_id = suc c.next_id },
    (do
      json_resp ← exchange c.url (request_of c method params)
      elim json_resp.error [
        | some e ↦ err (codes "JSON-RPC error " ++ w.format_int e.code ++ codes ": " ++ e.message)
        | none ↦ ok json_resp
      ]),
  )

  -- What the five methods do with the response.
  unfoldable pub result_of :
      {A : Type 0}
      → (Bytes → Outcome A)
      → JsonRpcClient × Outcome (JsonRpcResponse Json)
      → JsonRpcClient × Outcome A
  result_of unmarshal (c, called) = (
    c,
    (do
      resp ← called
      result_bytes ← wrap (codes "failed to marshal result: ") (w.marshal_result resp.result)
      wrap (codes "failed to unmarshal result: ") (unmarshal result_bytes)),
  )

  unfoldable pub client_status : JsonRpcClient → JsonRpcClient × Outcome StatusReply
  unfolding call result_of
  client_status c = result_of w.unmarshal_status (call c (codes "status") null)

  unfoldable pub client_peers : JsonRpcClient → JsonRpcClient × Outcome (List PeerInfo)
  unfolding call result_of
  client_peers c = result_of w.unmarshal_peers (call c (codes "peers") null)

  unfoldable pub client_route :
      JsonRpcClient → Bytes → Option (List Bytes) → JsonRpcClient × Outcome RouteReply
  unfolding call result_of
  client_route c action args =
      result_of w.unmarshal_route (call c (codes "route") (object (route_params action args)))

  unfoldable pub client_add_peer :
      JsonRpcClient → Bytes → Bytes → JsonRpcClient × Outcome AddPeerReply
  unfolding call result_of
  client_add_peer c name id =
      result_of w.unmarshal_add_peer (call c (codes "addPeer") (object (add_peer_params name id)))

  unfoldable pub client_node_ip : JsonRpcClient → JsonRpcClient × Outcome NodeIpReply
  unfolding call result_of
  client_node_ip c = result_of w.unmarshal_node_ip (call c (codes "nodeIp") null)

  unfoldable pub show_routes : JsonRpcClient → JsonRpcClient × Outcome RouteReply
  unfolding client_route
  show_routes c = client_route c (codes "show") none

  unfoldable pub client_add_route : JsonRpcClient → Bytes → JsonRpcClient × Outcome RouteReply
  unfolding client_route
  client_add_route c destination = client_route c (codes "add") (some (destination ∷ []))

  unfoldable pub client_del_route : JsonRpcClient → Bytes → JsonRpcClient × Outcome RouteReply
  unfolding client_route
  client_del_route c destination = client_route c (codes "del") (some (destination ∷ []))
