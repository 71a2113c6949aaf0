-- ===== src/Rpc/Json.antt =====
-- rpc/jsonrpc_server.go: the JSON-RPC requests and responses, and the methods that they call, which are the
-- handlers of rpc/server.go: the build on Windows, with those of rpc/server_windows.go, is not composed here.
pub mod Client
pub mod Answers
pub mod Refusals
use mynetwork.Common.{
  ℕ, Bool, true, false, List, [], ◌∷◌, Bytes, codes, bytes_eq, Option, none, some, Outcome, ok, err,
  panic, fatal, if◌then◌else◌,
}
use mynetwork.Config.{Ranger}
use mynetwork.Rpc.{
  StatusReply, PeerInfo, RouteArgs, RouteReply, AddPeerArgs, AddPeerReply, NodeIpReply, Externals,
  Daemon,
}
use mynetwork.Rpc.Server.{route, add_peer_call}
use mynetwork.Rpc.Reports.{status, peers, node_ip}

-- The values that `encoding/json` decodes into an `interface{}`.
mutual
  pub data Json : Type 0 where
    null : Json
    boolean : Bool → Json
    number : ℕ → Json
    text : Bytes → Json
    array : Items → Json
    object : Members → Json

  pub data Items : Type 0 where
    no_item : Items
    item : Json → Items → Items

  pub data Members : Type 0 where
    no_member : Members
    member : Bytes → Json → Members → Members

unfoldable pub get_member : Members → Bytes → Option Json
get_member no_member key = none
get_member (member k v rest) key = if bytes_eq k key then some v else get_member rest key

-- The type assertion `.(string)` of what a map gives.
unfoldable pub text_of : Option Json → Option Bytes
text_of (some (text s)) = some s
text_of _ = none

-- The integers of the error codes.
pub data ℤ : Type 0 where
  pos : ℕ → ℤ
  negsuc : ℕ → ℤ

abbrev pub parse_error : ℤ
parse_error = negsuc 32699

abbrev pub invalid_request : ℤ
invalid_request = negsuc 32599

abbrev pub method_not_found : ℤ
method_not_found = negsuc 32600

abbrev pub invalid_params : ℤ
invalid_params = negsuc 32601

abbrev pub internal_error : ℤ
internal_error = negsuc 32602

pub record JsonRpcRequest : Type 0 where
  pub jsonrpc : Bytes
  pub method : Bytes
  pub params : Json
  pub id : Json

pub record JsonRpcError : Type 0 where
  pub code : ℤ
  pub message : Bytes
  pub error_data : Option Bytes

-- With the type of its result.
pub record JsonRpcResponse (R : Type 0) : Type 0 where
  pub jsonrpc : Bytes
  pub result : Option R
  pub error : Option JsonRpcError
  pub id : Json

-- The replies that a method can give.
pub data Reply : Type 0 where
  status_reply : StatusReply → Reply
  peers_reply : List PeerInfo → Reply
  route_reply : RouteReply → Reply
  add_peer_reply : AddPeerReply → Reply
  node_ip_reply : NodeIpReply → Reply

-- What a method gives: a reply or an error, never both.
pub data Result : Type 0 where
  replied : Reply → Result
  refused : JsonRpcError → Result

abbrev refuse : ℤ → Bytes → Result
refuse code message = refused (record { code = code; message = message; error_data = none })

-- What the handler writes to its client.
pub data HttpReply : Type 0 where
  no_content : HttpReply
  not_allowed : HttpReply
  body : JsonRpcResponse Reply → HttpReply

-- The strings of a list, in order; what is no string is left out.
unfoldable pub texts : Items → List Bytes
texts no_item = []
texts (item (text s) rest) = s ∷ texts rest
texts (item _ rest) = texts rest

-- The arguments of the method route.
unfoldable pub parse_route_args : Members → RouteArgs
unfolding texts text_of get_member
parse_route_args params = record {
  action = elim (text_of (get_member params (codes "action"))) [ some a ↦ a | none ↦ codes "show" ];
  args = elim (get_member params (codes "args")) [ some (array items) ↦ texts items | _ ↦ [] ];
}

-- The error of a handler becomes an internal error with its text.
unfoldable pub answer : {A : Type 0} → (A → Reply) → Outcome A → Outcome Result
answer reply (ok a) = ok (replied (reply a))
answer reply (err m) = ok (
    refused
      (record { code = internal_error; message = codes "Internal error"; error_data = some m }))
answer reply fatal = fatal
answer reply panic = panic

abbrev failure : ℤ → Bytes → Option Bytes → Json → HttpReply
failure code message error_data id = body (record {
  jsonrpc = codes "2.0";
  result = none;
  error = some (record { code = code; message = message; error_data = error_data });
  id = id;
})

-- The end of the handler: the error or the result of the method is written.
unfoldable pub http_reply : Json → Outcome Result → Outcome HttpReply
http_reply id (ok (replied reply)) =
    ok (body (record { jsonrpc = codes "2.0"; result = some reply; error = none; id = id }))
http_reply id (ok (refused e)) = ok (failure e.code e.message e.error_data id)
http_reply id (err m) = err m
http_reply id fatal = fatal
http_reply id panic = panic

module _ {T : Type 0} (rg : Ranger T) (unicode_lower : Bytes → Bytes) (x : Externals) where
  unfoldable pub handle_status : Daemon T → Outcome Result
  unfolding status answer
  handle_status d = answer status_reply (ok (status x d))

  unfoldable pub handle_peers : Daemon T → Outcome Result
  unfolding peers answer
  handle_peers d = answer peers_reply (ok (peers x d))

  unfoldable pub handle_node_ip : Daemon T → Outcome Result
  unfolding node_ip answer
  handle_node_ip d = answer node_ip_reply (ok (node_ip x d))

  unfoldable pub handle_route : Daemon T → Json → Daemon T × Outcome Result
  unfolding route parse_route_args answer
  handle_route d (object params) =
      let (d', r) = route rg x d (parse_route_args params) in (d', answer route_reply r)
  handle_route d _ = (d, ok (refuse invalid_params (codes "Invalid params")))

  unfoldable pub handle_add_peer : Daemon T → Json → Daemon T × Outcome Result
  unfolding add_peer_call text_of get_member answer
  handle_add_peer d (object params) = elim (text_of (get_member params (codes "name"))) [
    | none ↦ (d, ok (refuse invalid_params (codes "Missing or invalid 'name' parameter")))
    | some name ↦ elim (text_of (get_member params (codes "id"))) [
      | none ↦ (d, ok (refuse invalid_params (codes "Missing or invalid 'id' parameter")))
      | some id ↦
          let (d', r) = add_peer_call rg unicode_lower x d (record { name = name; id = id }) in
          (d', answer add_peer_reply r)
    ]
  ]
  handle_add_peer d _ = (d, ok (refuse invalid_params (codes "Invalid params")))

  unfoldable pub handle_method : Daemon T → Bytes → Json → Daemon T × Outcome Result
  unfolding handle_status handle_peers handle_route handle_add_peer handle_node_ip bytes_eq
  handle_method d method params =
      if bytes_eq method (codes "status")
      then (d, handle_status d)
      else if bytes_eq method (codes "peers")
      then (d, handle_peers d)
      else if bytes_eq method (codes "route")
      then handle_route d params
      else if bytes_eq method (codes "addPeer")
      then handle_add_peer d params
      else if bytes_eq method (codes "nodeIp")
      then (d, handle_node_ip d)
      else (d, ok (refuse method_not_found (codes "Method not found")))

  -- `request` is what the decoder makes of the body, or nothing.
  unfoldable pub serve_http :
      Daemon T → Bytes → Option JsonRpcRequest → Daemon T × Outcome HttpReply
  unfolding handle_method http_reply bytes_eq
  serve_http d http_method request =
      if bytes_eq http_method (codes "OPTIONS")
      then (d, ok no_content)
      else if bytes_eq http_method (codes "POST")
      then (elim request [
        | none ↦ (d, ok (failure parse_error (codes "Parse error") none null))
        | some req ↦
            let (d', r) = handle_method d req.method req.params in
            let served : Daemon T × Outcome HttpReply = (d', http_reply req.id r) in
            if bytes_eq req.jsonrpc (codes "2.0")
            then served
            else (d, ok (failure invalid_request (codes "Invalid Request") none req.id))
      ])
      else (d, ok not_allowed)
