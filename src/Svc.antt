-- ===== src/Svc.antt =====
-- The data of the package svc: proxies, the service network and what its operations do to the
-- network stack.
pub mod Network
pub mod Proxies
pub mod Receiver
pub mod Pipe
use mynetwork.Common.{ℕ, List, Bytes, Dict, Option}
use mynetwork.Config.{PeerId, Config}

-- svc/proxy.go: the three values of `Proxy` that the program makes. `unset` is the zero value, whose
-- `Handle` is nil.
pub data Proxy : Type 0 where
  unset : Proxy
  tcp_service : Bytes → ℕ → Proxy
  remote_service : PeerId → Bytes → Proxy

-- svc/network.go: the fields that its operations read and write. A set of addresses is a dictionary
-- with no values, and a set of ports a list.
pub record ServiceNetwork (T : Type 0) : Type 0 where
  pub config : Config T
  pub self : Bytes
  pub active_addrs : Dict (Unit {0})
  pub active_ports : Dict (List ℕ)
  pub listeners : Dict Proxy

-- The calls into the network stack.
pub data Event : Type 0 where
  add_protocol_address : Bytes → Event
  serve : Bytes → ℕ → Proxy → Event
