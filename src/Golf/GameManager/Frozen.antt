-- ===== src/Golf/GameManager/Frozen.antt =====
-- The games that no request to game_manager.cc changes any more, on the store of
-- in_memory_game_store.cc.
mod Updates
mod Requests
mod Tests
use moon_base.Base.{
  ℕ, suc, ◌+◌, ◌≤◌, String, ◌≡◌, refl, sym, subst, ◌∙◌, some, List, [], ◌∷◌, All, arith, length,
}
use mathlib.Core.Option.{some-injective}
use moon_base.Base.Int.{int_max}
use moon_base.Base.Dict.{lookup}
use moon_base.Absl.{StatusOr, ok, err, fault}
use moon_base.Golf.GameState.{GameState}
use moon_base.Golf.GameState.Frozen.{IsFrozen}
use moon_base.Golf.GameStore.Full.{IsFull, IsFull-IsClosed}
use moon_base.Golf.InMemoryGameStore.{InMemoryGameStore, empty_store, in_memory_store}
use moon_base.Golf.InMemoryGameStore.Laws.{
  empty_store-IsConsistent, IsConsistent, in_memory_store-Safe,
}
use moon_base.Golf.InMemoryGameStore.Keeps.{Has}
use moon_base.Golf.GameManager.System.{Request, perform, survivor, serve, Shuffles}
use moon_base.Golf.GameManager.System.Safety.{perform-Sound, serve_room, survives}
use moon_base.Golf.GameManager.Frozen.Requests.{perform-Has}

survivor-state :
    {A : Type 0} (x : StatusOr A × InMemoryGameStore) {t : InMemoryGameStore}
    → survivor x ≡ some t
    → x.1 ≡ t
survivor-state (ok a, s) e = some-injective _ _ e
survivor-state (err m, s) e = some-injective _ _ e
survivor-state (fault b, s) e = cc

serve-Has :
    (id : String) (g : GameState) (rs : List Request) (s : InMemoryGameStore)
    → IsFrozen g
    → All Shuffles rs
    → IsConsistent IsFull (length rs) s
    → Has id g s
    → (t : InMemoryGameStore) × (serve in_memory_store rs s ≡ some t) × Has id g t
unfolding serve
serve-Has id g [] s frozen p c held = (s, refl, held)
serve-Has id g (r ∷ rs) s frozen p c held =
    let (t, e, i) = survives (
      perform-Sound in_memory_store IsConsistent in_memory_store-Safe IsFull IsFull-IsClosed
        (length rs) r s p.0 c) in
    let kept = perform-Has id g frozen (suc (length rs)) r s c held in
    let (t', e', held') =
      serve-Has id g rs t frozen p.1 i
        (subst (Has id g) (survivor-state (perform in_memory_store r s) e) kept) in
    (t', rw (serve, e) e', held')

-- When any requests have been served from the empty store, and the game under some id is over, or has
-- all its seats taken and is at the turn of a seat that an earlier seat shares its name with, then any
-- further requests are served too, of whatever users and about whatever games, and leave this game as
-- it is, if the requests are altogether at most as many as the greatest int and every shuffle orders the
-- deck anew.
pub serve-IsFrozen :
    (id : String) (g : GameState) (rs more : List Request) (s : InMemoryGameStore)
    → serve in_memory_store rs empty_store ≡ some s
    → lookup id s.games_by_id ≡ some g
    → IsFrozen g
    → All Shuffles rs
    → All Shuffles more
    → length rs + length more ≤ int_max
    → (t : InMemoryGameStore) × (serve in_memory_store more s ≡ some t)
      × (lookup id t.games_by_id ≡ some g)
serve-IsFrozen id g rs more s e held frozen p q few =
    let (t, f, c) =
      serve_room in_memory_store IsConsistent in_memory_store-Safe IsFull IsFull-IsClosed
        (length more) rs empty_store p (empty_store-IsConsistent IsFull _ few) in
    serve-Has id g more s frozen q
      (subst (IsConsistent IsFull (length more)) (some-injective t s (sym f ∙ e)) c) held
