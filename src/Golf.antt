-- ===== src/Golf.antt =====
-- cpp/cards/golf: the golf card game.
pub mod Player
pub mod GameState
pub mod GameStore
pub mod InMemoryGameStore
pub mod Deal
pub mod DocDbGameStore
pub mod GameManager
pub mod StateMapper
pub mod Service
mod Tables
mod Tests
