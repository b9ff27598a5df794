-- ===== src/Golf/GameManager/System/InMemory.antt =====
-- The game manager of game_manager.cc on the store of in_memory_game_store.cc, from its start.
use moon_base.Base.Dict.{Entries-map}
use moon_base.Base.{◌≤◌, ◌≡◌, true, some, List, All, length}
use moon_base.Base.Int.{int_max}
use moon_base.Base.Dict.{Entries, has_key}
use moon_base.Golf.GameStore.Full.{IsFull, IsFull-IsClosed}
use moon_base.Golf.InMemoryGameStore.{InMemoryGameStore, empty_store, in_memory_store}
use moon_base.Golf.InMemoryGameStore.Laws.{
  empty_store-IsConsistent, IsConsistent, in_memory_store-Safe,
}
use moon_base.Golf.GameManager.System.{Request, serve, Shuffles}
use moon_base.Golf.GameManager.System.Safety.{serve_lem}

-- From the empty store, any requests, at most as many as the greatest int, are served without an
-- uncaught exception and without undefined behaviour, if every shuffle orders the deck anew. Every
-- game then in the store is well formed, holds the 52 cards of a deck, each once, and has the id that
-- it is stored under; and a user's game is in the store.
pub serve-empty_store :
    (rs : List Request)
    → All Shuffles rs
    → length rs ≤ int_max
    → (s : InMemoryGameStore) × (serve in_memory_store rs empty_store ≡ some s)
      × Entries (λ id g. IsFull g × (g.game_id ≡ id)) s.games_by_id
      × Entries (λ u id. has_key id s.games_by_id ≡ true) s.game_ids_by_user_id
serve-empty_store rs p h =
    let (s, e, c) =
      serve_lem in_memory_store IsConsistent in_memory_store-Safe IsFull IsFull-IsClosed rs
        empty_store p (empty_store-IsConsistent IsFull _ h) in
    (s, e, Entries-map s.games_by_id (λ id g k. (k.good, k.own_id)) c.kept, c.pointed)
