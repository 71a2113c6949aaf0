-- ===== src/P2p.antt =====
-- The package p2p: the exchange of addresses between peers, discovery, and the relay's filter.
pub mod Pex
pub mod Discover
pub mod Relay
pub mod Routing
pub mod Node
pub mod Service
