-- ===== src/Up.antt =====
-- cli/up.go: the packet loop of `UpRun`, `sendPacket` and `streamHandler`.
pub mod Start
pub mod Routing
pub mod Send
pub mod Frames
