-- ===== src/Checks.antt =====
-- Tests and worked instances, by part of the program.
mod OfConfig
mod OfSvc
mod OfUp
mod OfRpc
mod OfP2p
mod OfTun
mod OfStart
mod OfSignals
mod OfNode
mod OfWintun
mod OfCli
mod OfClient
mod OfDns
mod OfJson
