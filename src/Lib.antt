-- ===== src/Lib.antt =====
-- Mynetwork, a VPN between peers that find each other by libp2p: what its own code decides.
--
-- The program and its parts. The daemon (cli/up.go) reads packets from a TUN device, looks the
-- destination up in the configuration's route table (config/config.go) and sends the packet over a
-- libp2p stream to the peer; packets that arrive from peers go to the TUN device. Addresses are
-- computed from names and IDs (config/idhash.go). A service network (svc/) gives every service of every
-- peer an IPv6 address, listens on it when the first packet arrives, and pipes each connection to a
-- local TCP service or to the peer. A running daemon is asked and changed by its RPC service (rpc/), over
-- net/rpc or JSON-RPC, whose handlers work on the same configuration as the packet loop. A name server
-- (dns/) answers with the addresses of peers and of their services, and peers tell each other where
-- others are (p2p/). At its start the daemon makes the TUN device (tun/), gives it addresses and routes and
-- registers its services; a signal, or an event of the console on Windows, ends it (signals/).
--
-- Which file models what:
--   Common           helpers: lists, texts as lists of bytes, dictionaries, the ways a Go function
--                    ends (Outcome), and what the sources use of the package net
--   Config           config/config.go and schema/config.go: the data (Config), the searches
--                    (Config.Lookup: FindPeer ... FindRouteForIP), AddPeer (Config.Update), Read
--                    (Config.Read), and config/idhash.go (Config.Ids)
--   Svc              svc/network.go: Register and EnsureListener (Svc.Network); svc/proxy.go: ProxyTo
--                    and the handlers (Svc.Proxies); svc/receiver.go (Svc.Receiver); svc/pipe.go (Svc.Pipe)
--   Tun              tun/tun.go and tun/options.go: Apply and the options; tun/tun_linux.go (Tun.Linux),
--                    tun/tun_windows.go (Tun.Windows, its addresses in Tun.Windows.Address) and
--                    tun/tun_darwin.go (Tun.Darwin)
--   Wintun           wintun/wintun.go: CreateTUN, Read, Write and Close of the device
--   Up               cli/up.go: the start of UpRun (Up.Start), the packet loop (Up.Routing.packet_loop),
--                    sendPacket (Up.Send), streamHandler (Up.Frames)
--   Cli              cli/init.go: InitRun
--   Signals          signals/signals.go, and signals/signals_windows.go (Signals.Windows)
--   Rpc              rpc/types.go; rpc/server.go: Route and AddPeer (Rpc.Server), Status, Peers and NodeIp
--                    (Rpc.Reports); rpc/jsonrpc_server.go (Rpc.Json, over Rpc.Server); rpc/jsonrpc_client.go (Rpc.Json.Client);
--                    rpc/server_windows.go (Rpc.Windows); rpc/client.go: how it connects (Rpc.Client)
--   Dns              dns/server.go: the handler of queries, and the server's address (Dns.Address);
--                    dns/server_windows.go (Dns.Windows)
--   P2p              p2p/pex.go (P2p.Pex, its service in P2p.Service), p2p/discover.go (P2p.Discover),
--                    p2p/relay.go (P2p.Relay), p2p/routing.go and p2p/routing_windows.go (P2p.Routing),
--                    p2p/node.go (P2p.Node)
--   Checks           worked instances of the theorems, and tests
--
-- Conventions. A Go string or byte slice is a list of numbers, a map an association list, and state is
-- passed explicitly. A function that can return an error, panic or end the process gives an Outcome. A
-- call of code outside the repository (libp2p, cidranger, the network stack, the decoders, the TUN
-- device) is a parameter, or a record of the answers that it gives; what is relied on is a named
-- hypothesis (Config.Routes.RangerLaws for the route table, with the concrete table
-- Config.ListRanger.list_ranger, which obeys it; Tun.Linux.Undone.NetlinkLaws for the kernel's routes;
-- Signals.Exit.LockLaws for the lock file). The state of the operating system is a type that the calls
-- of its records change. An MTU is a natural number, since the program only sets 1420.
--
-- Loops. The searches and the parsers recurse on their lists. The loop of streamHandler has fuel,
-- one unit for each frame; Up.Frames.Termination bounds it by what is on the way, and a read of a
-- stream that stays open waits. The packet loop takes the list of what its reads gave, Discover and
-- PeXService their events, pipe and the handlers of signals a schedule for the choices of select;
-- FindPeer takes the routings in the order in which they end, with their times, and the shutdown on
-- Windows the number of its steps that end before the timeout.
--
-- Not modelled: JSON-RPC over the handlers of Windows, goroutines that run at once on one map
-- (sendPacket is modelled call by call), deadlines and clocks, what is printed, and the parts of the
-- program that are input and output alone (the other commands, the calls of net/rpc, the metrics,
-- eventLogger, the loading of wintun.dll). netstack/ is a copy of a library.
mod Common
pub mod Config
pub mod Svc
pub mod Tun
pub mod Signals
pub mod Up
pub mod Cli
pub mod Wintun
pub mod Rpc
pub mod P2p
pub mod Dns
mod Checks
