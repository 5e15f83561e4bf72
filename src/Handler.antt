-- ===== src/Handler.antt =====
-- internal/handler/handler.go: the `PlayerHandler`, which turns what a player does into events for
-- the dispatcher. Its state is the dispatcher and the state `W` that the plugins and the game share.
pub mod Json
pub mod Game
pub mod Payloads
pub mod Dispatch
pub mod Calls
pub mod Cancelling
pub mod Modifications
mod Examples
