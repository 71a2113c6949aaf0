-- ===== src/Rpc/Json/Answers.antt =====
-- What the JSON-RPC server answers.
use mynetwork.Common.{
  ◌≡◌, refl, sym, ap, ◌∙◌, subst, true, false, List, [], ◌∷◌, Bytes, codes, bytes_eq, none, some,
  Outcome, ok-injective, ok, err, panic, fatal, Bool-cases, inl, inr,
}
use mynetwork.Config.{Ranger}
use mynetwork.Rpc.{Externals, Daemon}
use mynetwork.Rpc.Server.{route, add_peer_call}
use mynetwork.Rpc.Json.{
  Json, get_member, text_of, object, JsonRpcRequest, JsonRpcError, Reply, route_reply,
  add_peer_reply, Result, replied, refused, HttpReply, body, texts, parse_route_args, answer,
  handle_route, handle_add_peer, handle_method, serve_http, http_reply, invalid_request,
}
use mynetwork.Rpc.Json.Client.{items_of, route_params, add_peer_params}

texts-items_of : (ss : List Bytes) → texts (items_of ss) ≡ ss
unfolding texts
texts-items_of [] = refl
texts-items_of (s ∷ ss) = ap (λ l. s ∷ l) (texts-items_of ss)

-- The server reads the arguments of the method route as the client wrote them.
pub parse_route_args-route_params :
    (action : Bytes) (args : List Bytes)
    → parse_route_args (route_params action (some args)) ≡ record { action = action; args = args }
unfolding parse_route_args get_member text_of bytes_eq
parse_route_args-route_params action args =
    ap (λ l. record { action = action; args = l }) (texts-items_of args)

-- A response of version 2.0 that carries the id, with a result and no error or with an error and no
-- result.
pub data IsResponse (id : Json) : HttpReply → Type 0 where
  with_result :
      (reply : Reply)
      → IsResponse id
          (body (record { jsonrpc = codes "2.0"; result = some reply; error = none; id = id }))
  with_error :
      (e : JsonRpcError)
      → IsResponse id
          (body (record { jsonrpc = codes "2.0"; result = none; error = some e; id = id }))

http_reply-IsResponse :
    (id : Json) (o : Outcome Result) {r : HttpReply} → http_reply id o ≡ ok r → IsResponse id r
unfolding http_reply
http_reply-IsResponse id (ok (replied reply)) e =
    subst (IsResponse id) (ok-injective e) (with_result reply)
http_reply-IsResponse id (ok (refused failure)) e =
    subst (IsResponse id) (ok-injective e) (with_error failure)
http_reply-IsResponse id (err m) e = absurd (cc e)
http_reply-IsResponse id fatal e = absurd (cc e)
http_reply-IsResponse id panic e = absurd (cc e)

module _ {T : Type 0} (rg : Ranger T) (u : Bytes → Bytes) (x : Externals) (d : Daemon T) where
  pub serve_http-handle_method :
      (req : JsonRpcRequest)
      → bytes_eq req.jsonrpc (codes "2.0") ≡ true
      → serve_http rg u x d (codes "POST") (some req) ≡ (
        (handle_method rg u x d req.method req.params).0,
        http_reply req.id (handle_method rg u x d req.method req.params).1,
      )
  unfolding serve_http bytes_eq
  serve_http-handle_method req version = rw version refl

  pub serve_http-version :
      (req : JsonRpcRequest)
      → bytes_eq req.jsonrpc (codes "2.0") ≡ false
      → serve_http rg u x d (codes "POST") (some req) ≡ (
        d,
        http_reply req.id (
            ok (
              refused (record {
                code = invalid_request;
                message = codes "Invalid Request";
                error_data = none;
              }))),
      )
  unfolding serve_http bytes_eq http_reply
  serve_http-version req other = rw other refl

  -- Whatever is written for a request that was decoded, of any version, method and parameters, is a
  -- response of version 2.0 that carries the id of the request, and has either a result or an error.
  pub serve_http-IsResponse :
      (req : JsonRpcRequest) {d' : Daemon T} {r : HttpReply}
      → serve_http rg u x d (codes "POST") (some req) ≡ (d', ok r)
      → IsResponse req.id r
  serve_http-IsResponse req e = elim (Bool-cases (bytes_eq req.jsonrpc (codes "2.0"))) [
    | inr other ↦
        http_reply-IsResponse req.id _
          (sym (ap (λ t. t.1) (serve_http-version req other)) ∙ ap (λ t. t.1) e)
    | inl version ↦
        http_reply-IsResponse req.id _
          (sym (ap (λ t. t.1) (serve_http-handle_method req version)) ∙ ap (λ t. t.1) e)
  ]

  -- The method that the server runs for the parameters that the client builds is the RPC handler on
  -- just the client's arguments: for route with any action and any arguments, or with nil for none, and
  -- for addPeer with any name and ID.
  pub handle_method-params :
      (action : Bytes) (args : List Bytes) (name id : Bytes)
      → let r = route rg x d (record { action = action; args = args }) in
        let n = route rg x d (record { action = action; args = [] }) in
        let a = add_peer_call rg u x d (record { name = name; id = id }) in
        (handle_method rg u x d (codes "route") (object (route_params action (some args)))
          ≡ (r.0, answer route_reply r.1))
        × (handle_method rg u x d (codes "route") (object (route_params action none))
            ≡ (n.0, answer route_reply n.1))
        × (handle_method rg u x d (codes "addPeer") (object (add_peer_params name id))
            ≡ (a.0, answer add_peer_reply a.1))
  unfolding handle_method handle_route handle_add_peer parse_route_args get_member text_of bytes_eq
  handle_method-params action args name id = (
    ap
        (λ as'.
          let r = route rg x d (record { action = action; args = as' }) in
          (r.0, answer route_reply r.1))
        (texts-items_of args),
    refl,
    refl,
  )
