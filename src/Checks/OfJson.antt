-- ===== src/Checks/OfJson.antt =====
-- Instances of the theorems about the JSON-RPC server and its client.
use mynetwork.Common.{◌≡◌, ap, refl, ◌++◌, [], ◌∷◌, codes, ok, err, none, some, Option, Outcome}
use mynetwork.Config.ListRanger.{list_ranger}
use mynetwork.Rpc.Server.{route, add_peer_call}
use mynetwork.Rpc.Json.{
  null, number, object, JsonRpcRequest, JsonRpcResponse, JsonRpcError, Reply, HttpReply, body,
  handle_method, serve_http, answer, route_reply, add_peer_reply, method_not_found, internal_error,
}
use mynetwork.Rpc.Json.Client.{
  JsonRpcClient, Wire, request_of, route_params, add_peer_params, exchange, client_add_route,
}
use mynetwork.Rpc.Json.Answers.{IsResponse, serve_http-IsResponse, handle_method-params}
use mynetwork.Rpc.Json.Refusals.{Carries, serve_http-error, client_add_route-refused}
use mynetwork.Checks.OfConfig.{keep}
use mynetwork.Checks.OfRpc.{externals, idle, carol}

abbrev unknown : JsonRpcRequest
unknown = record { jsonrpc = codes "2.0"; method = codes "stop"; params = null; id = number 7 }

abbrev unknown_response : JsonRpcResponse Reply
unknown_response = record {
  jsonrpc = codes "2.0";
  result = none;
  error =
      some
        (record { code = method_not_found; message = codes "Method not found"; error_data = none });
  id = number 7;
}

serve_http-IsResponse_example : IsResponse (number 7) (body unknown_response)
unfolding serve_http
serve_http-IsResponse_example =
    serve_http-IsResponse list_ranger keep externals idle unknown {d' = idle} refl

serve_http-error_example : idle.config ≡ idle.config
unfolding serve_http
serve_http-error_example =
    serve_http-error list_ranger keep externals idle unknown unknown_response {d' = idle} refl refl

handle_method-params_example :
    let r =
      route list_ranger externals idle
        (record { action = codes "del"; args = codes "10.0.0.0/8" ∷ [] }) in
    let n = route list_ranger externals idle (record { action = codes "del"; args = [] }) in
    let a = add_peer_call list_ranger keep externals idle carol in
    (handle_method list_ranger keep externals idle
        (codes "route")
        (object (route_params (codes "del") (some (codes "10.0.0.0/8" ∷ []))))
      ≡ (r.0, answer route_reply r.1))
    × (handle_method list_ranger keep externals idle
          (codes "route")
          (object (route_params (codes "del") none))
        ≡ (n.0, answer route_reply n.1))
    × (handle_method list_ranger keep externals idle
          (codes "addPeer")
          (object (add_peer_params (codes "carol") (codes "QmC")))
        ≡ (a.0, answer add_peer_reply a.1))
handle_method-params_example =
    handle_method-params list_ranger keep externals idle (codes "del") (codes "10.0.0.0/8" ∷ [])
      (codes "carol") (codes "QmC")

-- A wire on which every answer is the refusal that the server gives to the client's route request.
abbrev wire : Wire
wire = record {
  marshal = λ req. ok [];
  post = λ url b. ok [];
  read_all = λ b. ok [];
  unmarshal = λ b. ok (record {
    jsonrpc = codes "2.0";
    result = none;
    error = some (record {
      code = internal_error;
      message = codes "Internal error";
      error_data = some (codes "expected exactly 2 arguments");
    });
    id = number 1;
  });
  marshal_result = λ r. ok [];
  unmarshal_status = λ b. err [];
  unmarshal_peers = λ b. err [];
  unmarshal_route = λ b. err [];
  unmarshal_add_peer = λ b. err [];
  unmarshal_node_ip = λ b. err [];
  format_int = λ i. codes "-32603";
}

abbrev client : JsonRpcClient
client = record { url = codes "http://127.0.0.1:1"; next_id = 1 }

abbrev written_error : Outcome HttpReply → Option JsonRpcError
written_error (ok (body resp)) = resp.error
written_error _ = none

wire-Carries : Carries list_ranger keep externals idle wire client.url (
    request_of wire client
      (codes "route")
      (object (route_params (codes "add") (some (codes "10.0.0.0/8" ∷ [])))))
unfolding exchange serve_http
wire-Carries = record { back = λ resp e. (_, refl, ap written_error e) }

client_add_route-refused_example :
    let req =
      request_of wire client
        (codes "route")
        (object (route_params (codes "add") (some (codes "10.0.0.0/8" ∷ [])))) in
    ((client_add_route wire client (codes "10.0.0.0/8")).1
      ≡ err (codes "JSON-RPC error " ++ codes "-32603" ++ codes ": " ++ codes "Internal error"))
    × ((serve_http list_ranger keep externals idle (codes "POST") (some req)).0 ≡ idle)
client_add_route-refused_example =
    client_add_route-refused list_ranger keep externals idle wire client (codes "10.0.0.0/8")
      wire-Carries
