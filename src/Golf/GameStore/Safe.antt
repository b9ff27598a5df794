-- ===== src/Golf/GameStore/Safe.antt =====
-- What the game manager relies on in a store, as laws of the interface in
-- cpp/cards/golf/game_store.h: a store that is handed sound games gives only sound games back.
use moon_base.Base.{false, ℕ, suc, String, ◌≡◌, some, List, All}
use moon_base.Base.Int.{pos, negsuc}
use moon_base.Absl.{Status, StatusOr, ok, err}
use moon_base.Golf.Player.{Player}
use moon_base.Golf.GameState.{GameState, player_at, with_id_and_version}
use moon_base.Golf.GameStore.{GameStore, Action, ◌>>=◌, attempt}

-- Player 0 has a name.
pub record HasCreator (g : GameState) : Type 0 where
  pub creator : Player
  pub creator_name : String
  pub first : player_at g.players (pos 0) ≡ some creator
  pub named : creator.name ≡ some creator_name

-- A game as a store may give it back: with all of its cards and players, but at the turn of player 0,
-- and without the peek and the knock.
abbrev pub restarted : GameState → String → String → GameState
restarted g game_id version_id = record g {
  peeked_at_draw_pile = false;
  whose_turn = pos 0;
  who_knocked = negsuc 0;
  game_id = game_id;
  version_id = version_id;
}

-- What is said of games does not depend on the id and the version, and stays true of a game that is
-- started again.
abbrev pub IsStable : (GameState → Type 0) → Type 0
IsStable P =
    (g : GameState) (id version : String)
    → P g
    → P (with_id_and_version g id version) × P (restarted g id version)

-- A call does not fault; its value and the state satisfy `Q`, and the state `I`, also on an error.
pub data Sound {S A : Type 0} (I : S → Type 0) (Q : A → S → Type 0) : StatusOr A × S → Type 0 where
  returns : {a : A} {s : S} → Q a s → I s → Sound I Q (ok a, s)
  refuses : {e : Status} {s : S} → I s → Sound I Q (err e, s)

abbrev pub Any : {S A : Type 0} → A → S → Type 0
Any a s = Unit

abbrev pub Holds : {S A : Type 0} → (A → Type 0) → A → S → Type 0
Holds Q a s = Q a

pub map-Sound :
    {S A : Type 0} {I : S → Type 0} {Q R : A → S → Type 0} {x : StatusOr A × S}
    → ((a : A) (s : S) → Q a s → R a s)
    → Sound I Q x
    → Sound I R x
map-Sound f (returns {a = a} {s = s} q i) = returns (f a s q) i
map-Sound f (refuses i) = refuses i

pub >>=-Sound :
    {S A B : Type 0} {I : S → Type 0} {Q : A → S → Type 0} {J : S → Type 0} {R : B → S → Type 0}
    (m : Action S A) (f : A → Action S B) (s : S)
    → Sound I Q (m s)
    → ((t : S) → I t → J t)
    → ((a : A) (t : S) → Q a t → I t → Sound J R (f a t))
    → Sound J R ((m >>= f) s)
>>=-Sound {S} {A} {B} {I} {Q} {J} {R} m f s h weaken k = go (m s) h
  where
    go : (x : StatusOr A × S) → Sound I Q x → Sound J R (((λ _. x) >>= f) s)
    go _ (returns {a = a} {s = t} q i) = k a t q i
    go _ (refuses {e = e} {s = t} i) = refuses (weaken t i)

pub attempt-Sound :
    {S A B : Type 0} {I : S → Type 0} {Q : A → S → Type 0} {J : S → Type 0} {R : B → S → Type 0}
    (m : Action S A) (f : StatusOr A → Action S B) (s : S)
    → Sound I Q (m s)
    → ((a : A) (t : S) → Q a t → I t → Sound J R (f (ok a) t))
    → ((e : Status) (t : S) → I t → Sound J R (f (err e) t))
    → Sound J R (attempt m f s)
attempt-Sound {S} {A} {B} {I} {Q} {J} {R} m f s h k l = go (m s) h
  where
    go : (x : StatusOr A × S) → Sound I Q x → Sound J R (attempt (λ _. x) f s)
    go _ (returns {a = a} {s = t} q i) = k a t q i
    go _ (refuses {e = e} {s = t} i) = l e t i

-- The game satisfies `P`, and under its id the store reads it, or one with the same players.
pub record Saved {S : Type 0} (store : GameStore S) (P : GameState → Type 0) (g : GameState) (s : S)
    : Type 0 where
  pub good : P g
  pub again : GameState
  pub readable : store.read_game g.game_id s ≡ (ok again, s)
  pub players : again.players ≡ g.players

-- The same of a game with the players `ps`.
abbrev pub SavedAs :
    {S : Type 0} → GameStore S → (GameState → Type 0) → List Player → GameState → S → Type 0
SavedAs store P ps g s = Saved store P g s × (g.players ≡ ps)

-- The laws: `I P k` holds of the states in which every game satisfies `P`, with room for `k` more.
pub record Safe {S : Type 0} (store : GameStore S) (I : (GameState → Type 0) → ℕ → S → Type 0)
    : Type 1 where
  pub weaken : (P : GameState → Type 0) (k : ℕ) (s : S) → I P (suc k) s → I P k s
  pub widen :
      (P Q : GameState → Type 0) (k : ℕ) (s : S) → ((g : GameState) → P g → Q g) → I P k s → I Q k s
  pub add_user :
      (P : GameState → Type 0) (k : ℕ) (u : String) (s : S)
      → I P k s
      → Sound (I P k) Any (store.add_user u s)
  pub user_exists :
      (P : GameState → Type 0) (k : ℕ) (u : String) (s : S)
      → I P k s
      → Sound (I P k) Any (store.user_exists u s)
  pub remove_user :
      (P : GameState → Type 0) (k : ℕ) (u : String) (s : S)
      → I P k s
      → Sound (I P k) Any (store.remove_user u s)
  pub get_users :
      (P : GameState → Type 0) (k : ℕ) (s : S) → I P k s → Sound (I P k) Any (store.get_users s)
  pub new_game :
      (P : GameState → Type 0) (k : ℕ) (g : GameState) (s : S)
      → IsStable P
      → P g
      → HasCreator g
      → I P (suc k) s
      → Sound (I P k) (SavedAs store P g.players) (store.new_game g s)
  pub read_game :
      (P : GameState → Type 0) (k : ℕ) (id : String) (s : S)
      → I P k s
      → Sound (I P k) (Holds P) (store.read_game id s)
  pub read_game_by_user_id :
      (P : GameState → Type 0) (k : ℕ) (u : String) (s : S)
      → I P k s
      → Sound (I P k) (Holds P) (store.read_game_by_user_id u s)
  pub read_all_games :
      (P : GameState → Type 0) (k : ℕ) (s : S)
      → I P k s
      → Sound (I P k) (Holds (All P)) (store.read_all_games s)
  pub update_game :
      (P : GameState → Type 0) (k : ℕ) (g : GameState) (s : S)
      → IsStable P
      → P g
      → I P k s
      → Sound (I P k) (SavedAs store P g.players) (store.update_game g s)
