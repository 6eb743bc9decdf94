-- ===== src/Game.antt =====
-- src/new_mud/apps/identity/consumers.py and game_session_metrics.py: the game's WebSocket.
pub mod Metrics
pub mod Connection
pub mod Binding
pub mod Requests
pub mod Receive
pub mod Effects
pub mod Serving
pub mod Handlers
pub mod Order
pub mod Census
pub mod Process
pub mod Replay
