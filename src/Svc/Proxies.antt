-- ===== src/Svc/Proxies.antt =====
-- svc/proxy.go: `ProxyTo` and the handlers of the proxies.
pub mod Targets
use mynetwork.Common.{
  ℕ, ◌+◌, ◌*◌, Bool, true, false, List, [], ◌∷◌, ◌++◌, Bytes, codes, ◌==◌, ◌||◌, get_or, Option,
  none, some, Outcome, ok, err, panic, if◌then◌else◌, ◌>>=◌,
}
use mynetwork.Svc.{Proxy, unset, tcp_service, remote_service}

-- A component of a multiaddress, as `multiaddr.ForEach` hands it over.
pub record Component : Type 0 where
  pub code : ℕ
  pub name : Bytes
  pub raw : Bytes

-- The codes `multiaddr.P_IP4`, `P_TCP` and `P_IP6`.
abbrev pub p_ip4 : ℕ
p_ip4 = 4

abbrev pub p_tcp : ℕ
p_tcp = 6

abbrev pub p_ip6 : ℕ
p_ip6 = 41

-- `binary.BigEndian.Uint16` of fewer than two bytes panics.
unfoldable pub big_endian : Bytes → Outcome ℕ
big_endian (hi ∷ lo ∷ rest) = ok (hi * 256 + lo)
big_endian (hi ∷ []) = panic
big_endian [] = panic

-- The variables that the callback of `ForEach` captures.
pub record Scan : Type 0 where
  pub proxy : Proxy
  pub error : Option Bytes
  pub done : Bool
  pub ip_addr : Bytes

-- The callback: the new variables, and whether to go on.
unfoldable pub scan_component : Component → Scan → Outcome (Scan × Bool)
unfolding big_endian
scan_component c s =
    if s.done
    then ok (record s { error = some (codes "trailing components in address") }, false)
    else if (c.code == p_ip4) || (c.code == p_ip6)
    then ok (record s { ip_addr = c.raw }, true)
    else if c.code == p_tcp
    then (do
      port ← big_endian c.raw
      ok (record s { proxy = tcp_service s.ip_addr port; done = true }, false))
    else ok (record s { error = some (codes "unsupported protocol: " ++ c.name) }, false)

-- `multiaddr.ForEach`: in order, until the callback says no.
unfoldable pub for_each : List Component → Scan → Outcome Scan
for_each [] s = ok s
for_each (c ∷ cs) s = elim (scan_component c s) [
  | ok (s', more) ↦ let rest = for_each cs s' in if more then rest else ok s'
  | err m ↦ err m
  | _ ↦ panic
]

unfoldable pub proxy_to : List Component → Outcome Proxy
unfolding for_each scan_component
proxy_to ma = do
  s ←
      for_each ma
        (record { proxy = unset; error = none; done = false; ip_addr = 127 ∷ 0 ∷ 0 ∷ 1 ∷ [] })
  elim s.error [ none ↦ ok s.proxy | some m ↦ err m ]

abbrev pub rs_ok : ℕ
rs_ok = 0xf1

abbrev pub rs_not_supported : ℕ
rs_not_supported = 0xf2

-- What a handler did with its connection and the stream that it opened.
pub record Handled : Type 0 where
  pub conn_closed : Bool
  pub stream_opened : Bool
  pub stream_closed : Bool
  pub wrote : List Bytes
  pub piped : Bool

-- What the other side answers to a handler: the results of opening, of writing and of reading.
pub record Answers : Type 0 where
  pub open_stream : Outcome (Unit {0})
  pub write : Bytes → Outcome (Unit {0})
  pub read : Outcome Bytes

-- The handler of `RemoteServiceProxy`; the buffer for the status holds 0 at first.
unfoldable pub remote_handle : Bytes → Answers → Handled
remote_handle svc_id a =
    let unopened : Handled = record {
      conn_closed = true;
      stream_opened = false;
      stream_closed = false;
      wrote = [];
      piped = false;
    } in
    let opened : Handled = record unopened { stream_opened = true; stream_closed = true } in
    elim a.open_stream [
      | ok _ ↦ elim (a.write svc_id) [
        | ok _ ↦ elim a.read [
          | ok buf ↦ record opened { wrote = svc_id ∷ []; piped = get_or buf 0 0 == rs_ok }
          | _ ↦ record opened { wrote = svc_id ∷ [] }
        ]
        | _ ↦ opened
      ]
      | _ ↦ unopened
    ]

-- The handler of `TCPServiceProxy`; the dial is what opens the stream.
unfoldable pub tcp_handle : Answers → Handled
tcp_handle a = elim a.open_stream [
  | ok _ ↦ record {
    conn_closed = true;
    stream_opened = true;
    stream_closed = true;
    wrote = [];
    piped = true;
  }
  | _ ↦ record {
    conn_closed = true;
    stream_opened = false;
    stream_closed = false;
    wrote = [];
    piped = false;
  }
]

-- `proxy.Handle(conn)`: a call of nil panics.
unfoldable pub handle : Proxy → Answers → Outcome Handled
unfolding remote_handle tcp_handle
handle unset a = panic
handle (tcp_service ip port) a = ok (tcp_handle a)
handle (remote_service p svc_id) a = ok (remote_handle svc_id a)
