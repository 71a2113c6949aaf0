-- ===== src/Rpc/Json/Refusals.antt =====
-- Calls over JSON-RPC that are refused.
use mynetwork.Common.{
  ◌≡◌, ◌≢◌, refl, sym, ap, ◌∙◌, true, [], ◌∷◌, ◌++◌, Bytes, codes, bytes_eq, Option, none, some,
  Outcome, ok, err, panic, fatal, Bool-cases, Option-cases, inl, inr,
}
use mynetwork.Config.{Ranger}
use mynetwork.Rpc.{AddPeerReply, Externals, Daemon}
use mynetwork.Rpc.Server.{route, route_add, add_peer_call}
use mynetwork.Rpc.Server.Routing.{IsUndone, route-err, untouched, failed, given_back, taken_away}
use mynetwork.Rpc.Server.Adding.{is_success, add_peer_call-cases}
use mynetwork.Rpc.Json.{
  Json, get_member, text_of, null, boolean, number, text, array, object, JsonRpcRequest,
  JsonRpcError, JsonRpcResponse, Reply, route_reply, add_peer_reply, Result, replied, refused,
  HttpReply, body, parse_route_args, answer, handle_route, handle_add_peer, handle_method,
  http_reply, serve_http, internal_error, texts,
}
use mynetwork.Rpc.Json.Answers.{serve_http-handle_method, serve_http-version}
use mynetwork.Rpc.Json.Client.{
  JsonRpcClient, Wire, request_of, exchange, call, result_of, route_params, client_route,
  client_add_route,
}

answer-refused :
    {A : Type 0} (reply : A → Reply) (o : Outcome A) {e : JsonRpcError}
    → answer reply o ≡ ok (refused e)
    → (m : Bytes) × (o ≡ err m)
unfolding answer
answer-refused reply (ok a) h = absurd (cc h)
answer-refused reply (err m) h = (m, refl)
answer-refused reply fatal h = absurd (cc h)
answer-refused reply panic h = absurd (cc h)

answer-success :
    (reply : AddPeerReply → Reply) (o : Outcome AddPeerReply) {e : JsonRpcError}
    → is_success o ≡ true
    → answer reply o ≢ ok (refused e)
unfolding answer
answer-success reply (ok a) won h = cc h
answer-success reply (err m) won h = cc won
answer-success reply fatal won h = cc won
answer-success reply panic won h = cc won

module _ {T : Type 0} (rg : Ranger T) (u : Bytes → Bytes) (x : Externals) (d : Daemon T) where
  IsUndone-config : {d' : Daemon T} → IsUndone rg x d d' → d'.config ≡ d.config
  IsUndone-config untouched = refl
  IsUndone-config (failed o bad) = refl
  IsUndone-config (given_back n taken back) = refl
  IsUndone-config (taken_away n taken bad) = refl

  handle_route-refused :
      (params : Json) {e : JsonRpcError}
      → (handle_route rg u x d params).1 ≡ ok (refused e)
      → (handle_route rg u x d params).0.config ≡ d.config
  unfolding handle_route
  handle_route-refused (object params) h =
      let (m, gave) = answer-refused route_reply (route rg x d (parse_route_args params)).1 h in
      IsUndone-config (route-err rg x d (parse_route_args params) gave)
  handle_route-refused null h = refl
  handle_route-refused (boolean b) h = refl
  handle_route-refused (number n) h = refl
  handle_route-refused (text s) h = refl
  handle_route-refused (array items) h = refl

  call-refused :
      (name id : Bytes) {e : JsonRpcError}
      → let r = add_peer_call rg u x d (record { name = name; id = id }) in
        answer add_peer_reply r.1 ≡ ok (refused e) → r.0.config ≡ d.config
  call-refused name id h = elim (add_peer_call-cases rg u x d (record { name = name; id = id })) [
    | inl (lost, same) ↦ ap (λ (t : Daemon T). t.config) same
    | inr (peer_id, admissible, won, after) ↦ absurd (answer-success add_peer_reply _ won h)
  ]

  handle_add_peer-refused :
      (params : Json) {e : JsonRpcError}
      → (handle_add_peer rg u x d params).1 ≡ ok (refused e)
      → (handle_add_peer rg u x d params).0.config ≡ d.config
  unfolding handle_add_peer
  handle_add_peer-refused (object params) h =
      elim (Option-cases (text_of (get_member params (codes "name")))) [
        | inl unnamed ↦ rw (handle_add_peer, unnamed) refl
        | inr (name, named) ↦ elim (Option-cases (text_of (get_member params (codes "id")))) [
          | inl ungiven ↦ rw (handle_add_peer, named, ungiven) refl
          | inr (id, given) ↦
              rw (handle_add_peer, named, given)
                (call-refused name id (rw (handle_add_peer, named, given) at h))
        ]
      ]
  handle_add_peer-refused null h = refl
  handle_add_peer-refused (boolean b) h = refl
  handle_add_peer-refused (number n) h = refl
  handle_add_peer-refused (text s) h = refl
  handle_add_peer-refused (array items) h = refl

  handle_method-refused :
      (method : Bytes) (params : Json) {e : JsonRpcError}
      → (handle_method rg u x d method params).1 ≡ ok (refused e)
      → (handle_method rg u x d method params).0.config ≡ d.config
  unfolding handle_method bytes_eq
  handle_method-refused method params h = elim (Bool-cases (bytes_eq method (codes "status"))) [
    | inl is_status ↦ rw (handle_method, is_status) refl
    | inr not_status ↦ elim (Bool-cases (bytes_eq method (codes "peers"))) [
      | inl is_peers ↦ rw (handle_method, not_status, is_peers) refl
      | inr not_peers ↦ elim (Bool-cases (bytes_eq method (codes "route"))) [
        | inl is_route ↦
            rw (handle_method, not_status, not_peers, is_route)
              (handle_route-refused params
                (rw (handle_method, not_status, not_peers, is_route) at h))
        | inr not_route ↦ elim (Bool-cases (bytes_eq method (codes "addPeer"))) [
          | inl is_add ↦
              rw (handle_method, not_status, not_peers, not_route, is_add)
                (handle_add_peer-refused params
                  (rw (handle_method, not_status, not_peers, not_route, is_add) at h))
          | inr not_add ↦ elim (Bool-cases (bytes_eq method (codes "nodeIp"))) [
            | inl is_ip ↦ rw (handle_method, not_status, not_peers, not_route, not_add, is_ip) refl
            | inr not_ip ↦
                rw (handle_method, not_status, not_peers, not_route, not_add, not_ip) refl
          ]
        ]
      ]
    ]
  ]

  error_of : Outcome HttpReply → Option JsonRpcError
  error_of (ok (body resp)) = resp.error
  error_of _ = none

  http_reply-refused :
      (id : Json) (o : Outcome Result) {e : JsonRpcError}
      → error_of (http_reply id o) ≡ some e
      → (f : JsonRpcError) × (o ≡ ok (refused f))
  unfolding http_reply error_of
  http_reply-refused id (ok (replied reply)) h = absurd (cc h)
  http_reply-refused id (ok (refused f)) h = (f, refl)
  http_reply-refused id (err m) h = absurd (cc h)
  http_reply-refused id fatal h = absurd (cc h)
  http_reply-refused id panic h = absurd (cc h)

  -- A request over JSON-RPC that is answered with an error, whatever it asked for, leaves the
  -- configuration of the daemon as it was.
  pub serve_http-error :
      (req : JsonRpcRequest) (resp : JsonRpcResponse Reply) {d' : Daemon T} {e : JsonRpcError}
      → serve_http rg u x d (codes "POST") (some req) ≡ (d', ok (body resp))
      → resp.error ≡ some e
      → d'.config ≡ d.config
  unfolding error_of
  serve_http-error req resp {d'} {e} served bad =
      elim (Bool-cases (bytes_eq req.jsonrpc (codes "2.0"))) [
        | inr other ↦
            sym (ap (λ (t : Daemon T × Outcome HttpReply). t.0.config) served)
            ∙ ap (λ (t : Daemon T × Outcome HttpReply). t.0.config)
                (serve_http-version rg u x d req other)
        | inl version ↦
            let step = serve_http-handle_method rg u x d req version in
            let wrote : http_reply req.id (handle_method rg u x d req.method req.params).1
                ≡ ok (body resp) =
              sym (ap (λ (t : Daemon T × Outcome HttpReply). t.1) step)
              ∙ ap (λ (t : Daemon T × Outcome HttpReply). t.1) served in
            let (f, gave) =
              http_reply-refused req.id (handle_method rg u x d req.method req.params).1
                (ap error_of wrote ∙ bad) in
            sym (ap (λ (t : Daemon T × Outcome HttpReply). t.0.config) served)
            ∙ ap (λ (t : Daemon T × Outcome HttpReply). t.0.config) step
            ∙ handle_method-refused req.method req.params gave
      ]

  one_argument :
      (destination : Bytes)
      → handle_method rg u x d
          (codes "route")
          (object (route_params (codes "add") (some (destination ∷ []))))
        ≡ (
          d,
          ok (
              refused (record {
                code = internal_error;
                message = codes "Internal error";
                error_data = some (codes "expected exactly 2 arguments");
              })),
        )
  unfolding handle_method handle_route route route_add parse_route_args answer get_member text_of
      texts bytes_eq
  one_argument destination = refl

  -- A wire that brings the server's response to a request back to the client, with its error.
  pub record Carries (w : Wire) (url : Bytes) (req : JsonRpcRequest) : Type 0 where
    pub back :
        (resp : JsonRpcResponse Reply)
        → (serve_http rg u x d (codes "POST") (some req)).1 ≡ ok (body resp)
        → (arrived : JsonRpcResponse Json) × (exchange w url req ≡ ok arrived)
          × (arrived.error ≡ resp.error)

  -- `AddRoute` of the client, with a daemon whose handlers are those of rpc/server.go, that is one not
  -- built for Windows, fails for every destination and every state of the daemon, over a wire that brings the server's response back: the client sends one argument and the server wants two. The
  -- daemon is left as it was.
  pub client_add_route-refused :
      (w : Wire) (c : JsonRpcClient) (destination : Bytes)
      → let req =
          request_of w c
            (codes "route")
            (object (route_params (codes "add") (some (destination ∷ [])))) in
        Carries w c.url req
        → ((client_add_route w c destination).1
            ≡ err (
                codes "JSON-RPC error "
                ++ w.format_int internal_error
                ++ codes ": "
                ++ codes "Internal error"))
          × ((serve_http rg u x d (codes "POST") (some req)).0 ≡ d)
  unfolding client_add_route client_route call result_of http_reply bytes_eq
  client_add_route-refused w c destination carried =
      let req =
        request_of w c (codes "route")
          (object (route_params (codes "add") (some (destination ∷ [])))) in
      let step = serve_http-handle_method rg u x d req refl in
      let refusal : JsonRpcResponse Reply = record {
        jsonrpc = codes "2.0";
        result = none;
        error = some (record {
          code = internal_error;
          message = codes "Internal error";
          error_data = some (codes "expected exactly 2 arguments");
        });
        id = req.id;
      } in
      let wrote : serve_http rg u x d (codes "POST") (some req) ≡ (d, ok (body refusal)) =
        step
        ∙ ap (λ (t : Daemon T × Outcome Result). (t.0, http_reply req.id t.1))
            (one_argument destination) in
      let (arrived, came, same) =
        carried.back refusal (ap (λ (t : Daemon T × Outcome HttpReply). t.1) wrote) in
      (rw (came, same) refl, ap (λ (t : Daemon T × Outcome HttpReply). t.0) wrote)
