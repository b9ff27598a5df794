-- ===== src/Golf/InMemoryGameStore/Contract.antt =====
-- What in_memory_game_store.cc promises its callers, said of functions instead of containers: who is
-- online, which game an id stands for, and what id the game of a user has. The two methods that list a
-- whole container are left out.
pub mod Holds
pub mod Calls
pub mod Writes
pub mod Refinement
mod Tests
use moon_base.Base.{
  ℕ, suc, String, Bool, true, false, ◌||◌, Option, none, some, List, [], ◌∷◌, ◌==◌, if◌then◌else◌,
  str_eq,
}
use moon_base.Base.Int.{int_max}
use moon_base.Base.Text.{to_string}
use moon_base.Absl.{
  StatusOr, ok, err, fault, undefined, throws_out_of_range, not_found_error, already_exists_error,
  invalid_argument_error, internal_error,
}
use moon_base.Golf.Player.{Player}
use moon_base.Golf.GameState.{GameState, is_over, with_id_and_version}
use moon_base.Golf.GameStore.{GameStore, Action, ◌>>=◌, pure}

-- A call of a method, and what comes back if all goes well.
pub data Call : Type 0 where
  adds_user asks_for_user removes_user reads reads_by_user : String → Call
  opens updates : GameState → Call

pub data Answer : Type 0 where
  done : Answer
  says : Bool → Answer
  gives : GameState → Answer

-- A call of a store.
abbrev pub reply : {S : Type 0} → GameStore S → Call → Action S Answer
reply store (adds_user u) = store.add_user u >>= λ _. pure (ok done)
reply store (asks_for_user u) = store.user_exists u >>= λ b. pure (ok (says b))
reply store (removes_user u) = store.remove_user u >>= λ _. pure (ok done)
reply store (reads id) = store.read_game id >>= λ g. pure (ok (gives g))
reply store (reads_by_user u) = store.read_game_by_user_id u >>= λ g. pure (ok (gives g))
reply store (opens g) = store.new_game g >>= λ h. pure (ok (gives h))
reply store (updates g) = store.update_game g >>= λ h. pure (ok (gives h))

-- The answers to calls one after another, errors included, up to a fault.
pub replies : {S : Type 0} → (Call → Action S Answer) → List Call → S → List (StatusOr Answer)
replies step [] s = []
replies step (c ∷ cs) s =
    let (r, t) = step c s in
    r ∷ elim r [ ok a ↦ replies step cs t | err e ↦ replies step cs t | fault b ↦ [] ]

pub record Contents : Type 0 where
  pub online : String → Bool
  pub game : String → Option GameState
  pub id_of : String → Option String
  pub opened : ℕ

abbrev pub nothing : Contents
nothing = record { online = λ u. false; game = λ id. none; id_of = λ u. none; opened = 0 }

-- A function that is changed at one text.
abbrev pub set_at : {V : Type 0} → String → V → (String → V) → String → V
set_at k v f j = if str_eq k j then v else f j

-- Whether a user has a seat.
abbrev pub sits : String → List Player → Bool
sits u [] = false
sits u (p ∷ ps) = elim p.name [ none ↦ false | some n ↦ str_eq n u ] || sits u ps

-- The game of a user, if there is one.
abbrev pub game_of : String → Contents → Option GameState
game_of u c = elim (c.id_of u) [ none ↦ none | some id ↦ c.game id ]

-- A new game for the user at its first seat.
pub opened_as : String → GameState → List Player → Contents → StatusOr Answer × Contents
opened_as id g [] c = (fault throws_out_of_range, c)
opened_as id g (p ∷ ps) c = elim p.name [
  | none ↦ (fault undefined, c)
  | some u ↦
      if str_eq u ""
      then (
        err (
            internal_error
              "game_state cannot be created without a player. This should have been validated upstream."),
        c,
      )
      else elim (c.id_of u) [
        | some _ ↦ (err (invalid_argument_error "already in game"), c)
        | none ↦ (
          ok (gives g),
          record c { game = set_at id (some g) c.game; id_of = set_at u (some id) c.id_of },
        )
      ]
]

-- What each call is to answer, and what it is to change. That the id of a new game is free, and that
-- the id of a user's game is that of a game, needs no test here.
pub specified : Call → Action Contents Answer
unfolding opened_as
specified (adds_user u) c =
    if c.online u
    then (err (already_exists_error "already exists"), c)
    else (ok done, record c { online = set_at u true c.online })
specified (asks_for_user u) c = (ok (says (c.online u)), c)
specified (removes_user u) c = (ok done, record c { online = set_at u false c.online })
specified (reads id) c = elim (c.game id) [
  | some g ↦ (ok (gives g), c)
  | none ↦ (err (not_found_error "game not found"), c)
]
specified (reads_by_user u) c = elim (game_of u c) [
  | some g ↦ (ok (gives g), c)
  | none ↦ (err (not_found_error "game not found"), c)
]
specified (opens g) c =
    if c.opened == int_max
    then (fault undefined, c)
    else let id = to_string c.opened in
      let h = with_id_and_version g id "foo" in
      opened_as id h h.players (record c { opened = suc c.opened })
specified (updates g) c = elim (c.game g.game_id) [
  | none ↦ (err (invalid_argument_error "game does not exist"), c)
  | some old ↦ if is_over old then (err (invalid_argument_error "game is over"), c) else (
    ok (gives g),
    record c {
      game = set_at g.game_id (some g) c.game;
      id_of = λ u. if sits u g.players then some g.game_id else c.id_of u;
    },
  )
]
