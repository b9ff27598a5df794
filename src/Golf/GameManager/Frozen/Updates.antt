-- ===== src/Golf/GameManager/Frozen/Updates.antt =====
-- What game_manager.cc hands to the store of in_memory_game_store.cc once it has read a game: never
-- another state of a frozen game.
use moon_base.Base.{
  ℕ, String, ◌≡◌, refl, ap, sym, ◌∙◌, Bool-cases, true, false, ◌⊎◌, inl, inr, Option-cases,
}
use mathlib.Core.Option.{some-injective}
use moon_base.Base.Dict.{lookup, member, Entries-lookup}
use moon_base.Absl.{invalid_argument_error, not_found_error, Status, StatusOr-cases, ok, err}
use moon_base.Golf.GameState.{
  GameState, Move, play, player_index, is_over, all_players_present, with_players,
}
use moon_base.Golf.GameState.Frozen.{IsFrozen, over, shared, IsFrozen-refusal, play-game_id}
use moon_base.Golf.GameState.Rules.Refusals.{refused}
use moon_base.Golf.GameStore.Full.{IsFull}
use moon_base.Golf.Deal.Join.{claim_seat_lem, seat_first}
use moon_base.Golf.InMemoryGameStore.{InMemoryGameStore, in_memory_store, user_exists, read_game}
use moon_base.Golf.InMemoryGameStore.Laws.{IsConsistent, IsKept}
use moon_base.Golf.InMemoryGameStore.Keeps.{Has, update_game-Has}
use moon_base.Golf.GameManager.{get_game_state_for_user, move_on, update_game_state, take_seat}

-- What is read under an id: an error, or the game as the store has it.
pub reading :
    (id : String) (s : InMemoryGameStore)
    → ((e : Status) × (read_game id s ≡ (err e, s)))
      ⊎ ((g : GameState) × Has id g s × (read_game id s ≡ (ok g, s)))
unfolding read_game
reading id s = elim (Option-cases (lookup id s.games_by_id)) [
  | inl e ↦ inl (not_found_error "game not found", rw (read_game, e) refl)
  | inr (g, e) ↦ inr (g, e, rw (read_game, e) refl)
]

-- What a user who asks for a game gets: an error, or the game as the store has it.
pub got :
    (id u : String) (s : InMemoryGameStore)
    → ((e : Status) × (get_game_state_for_user in_memory_store id u s ≡ (err e, s)))
      ⊎ ((g : GameState) × Has id g s
          × (get_game_state_for_user in_memory_store id u s ≡ (ok g, s)))
unfolding get_game_state_for_user user_exists read_game
got id u s = elim (Bool-cases (member u s.users_online)) [
  | inr unknown ↦ inl (invalid_argument_error "unknown user", rw unknown refl)
  | inl known ↦ elim (reading id s) [
    | inl (x, e) ↦ inl (x, rw known e)
    | inr (g, f, e) ↦ inr (g, f, rw known e)
  ]
]

module _ (id : String) (g : GameState) (frozen : IsFrozen g) (k : ℕ) where
  -- Under another id there is another game.
  own :
      (other : String) (h : GameState) (s : InMemoryGameStore)
      → IsConsistent IsFull k s
      → Has other h s
      → IsKept IsFull s.counter other h
  own other h s c e = Entries-lookup (IsKept IsFull s.counter) other s.games_by_id c.kept e

  one :
      (other : String) (h : GameState) (s : InMemoryGameStore)
      → IsConsistent IsFull k s
      → Has id g s
      → Has other h s
      → h.game_id ≡ id
      → h ≡ g
  one other h s c held e same =
      some-injective h g
        (sym e ∙ ap (λ i. lookup i s.games_by_id) (sym (own other h s c e).own_id ∙ same) ∙ held)

  pub move_on-Has :
      (m : Move) (other u : String) (h : GameState) (s : InMemoryGameStore)
      → IsConsistent IsFull k s
      → Has id g s
      → Has other h s
      → Has id g (move_on in_memory_store u (play m) (ok h) s).1
  unfolding move_on update_game_state
  move_on-Has m other u h s c held e = elim (StatusOr-cases (play m h (player_index h u))) [
    | inr (inl (x, f)) ↦ rw (move_on, f) held
    | inr (inr (b, f)) ↦ rw (move_on, f) held
    | inl (h', f) ↦ rw (move_on, f) (update_game-Has id g h' s (λ same. stays h' same f) held)
  ]
    where
      stays :
          (h' : GameState)
          → h'.game_id ≡ id
          → play m h (player_index h u) ≡ ok h'
          → is_over g ≡ true
      stays h' same f =
          let i = play-game_id m h (player_index h u) (own other h s c e).good.valid f in
          let here = one other h s c held e (sym i ∙ same) in
          let (msg, r) = IsFrozen-refusal m g u frozen in
          let no_move = refused m g (player_index g u) msg r in
          let moved = ap (λ x. play m x (player_index x u)) here in cc

  pub take_seat-Has :
      (other u : String) (h : GameState) (s : InMemoryGameStore)
      → IsConsistent IsFull k s
      → Has id g s
      → Has other h s
      → Has id g (take_seat in_memory_store u (ok h) s).1
  take_seat-Has other u h s c held e = elim (Bool-cases (all_players_present h)) [
    | inl full ↦ rw full held
    | inr free ↦
        rw (free, claim_seat_lem u h.players)
          (update_game-Has id g (with_players h (seat_first u h.players)) s
            (λ same. ended free (one other h s c held e same) frozen) held)
  ]
    where
      ended : all_players_present h ≡ false → h ≡ g → IsFrozen g → is_over g ≡ true
      ended free here (over l) = l
      ended free here (shared i j p q full a b same lt turn) =
          let full' = ap all_players_present here in cc
