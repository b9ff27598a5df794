-- ===== src/Golf/GameStore/Full.antt =====
-- What game_manager.cc does to a single game, a move, a claim or a deal, gives a sound game.
use mathlib.Core.List.Perm
use moon_base.Base.{
  ℕ, zero, suc, ◌≤◌, String, ◌≡◌, refl, ◌∙◌, ◌⊎◌, inl, inr, some, List, [], ◌∷◌, arith, length,
  Perm, map, length-Perm, get_elem?, ◌<◌, false, Bool-cases, all_of,
}
use moon_base.Base.Int.{ℤ}
use moon_base.Absl.{Status, ok, err}
use moon_base.Cards.{Card, card_of_index}
use moon_base.Golf.Player.{Player, is_present}
use moon_base.Golf.GameState.{GameState, Move, play, with_players, player_index}
use moon_base.Golf.GameState.Conservation.{cards_of, play-cards_of}
use moon_base.Golf.GameState.Valid.{IsValid, turn_index, whose_turn-turn_index}
use moon_base.Golf.GameState.Names.{IsNamed, IsNamed-names_of, index-IsNamed, play-names_of}
use moon_base.Golf.GameState.Invariant.{play-IsValid}
use moon_base.Golf.GameState.Rules.{play_total, play-Step}
use moon_base.Golf.GameStore.Safe.{HasCreator, IsStable}
use moon_base.Golf.Deal.{count_up, dealt_game, shuffle_new_deck}
use moon_base.Golf.Deal.Laws.{dealt_game-Deals, NamedFrom}
use moon_base.Golf.Deal.Join.{seat_first, hands-seat_first, length-seat_first}

abbrev pub full_deck : List Card
full_deck = map card_of_index (count_up 0 52)

-- A well-formed game with exactly the cards of one deck.
pub record IsFull (g : GameState) : Type 0 where
  pub valid : IsValid g
  pub complete : Perm (cards_of g) full_deck

-- A move on a sound game returns, and what it returns is sound.
pub play-IsFull :
    (m : Move) (g : GameState) (z : ℤ)
    → IsFull g
    → ((h : GameState) × (play m g z ≡ ok h) × IsFull h) ⊎ ((e : Status) × (play m g z ≡ err e))
play-IsFull m g z f = elim (play_total m g z f.valid) [
  | inl (msg, _, e) ↦ inr (_, e)
  | inr (_, (h, r)) ↦ inl (
    h,
    r,
    record {
      valid = play-IsValid m g z f.valid r;
      complete = Perm.trans (play-cards_of m g z f.valid r) f.complete;
    },
  )
]

pub seat_first-IsFull :
    (u : String) (g : GameState) → IsFull g → IsFull (with_players g (seat_first u g.players))
seat_first-IsFull u g f = record {
  valid = record {
    crowd = rw (length-seat_first u g.players) f.valid.crowd;
    turn = rw (length-seat_first u g.players) f.valid.turn;
    knocker = rw (length-seat_first u g.players) f.valid.knocker;
    discards = f.valid.discards;
    peeks = λ h. cc;
  };
  complete = rw (hands-seat_first u g.players) f.complete;
}

-- Who has made a move sits at the table.
play-IsNamed :
    (u : String) (m : Move) (g : GameState) {h : GameState}
    → IsFull g
    → play m g (player_index g u) ≡ ok h
    → IsNamed u h.players
play-IsNamed u m g f e =
    let turn = (play-Step g f.valid m (player_index g u) e).0 in
    IsNamed-names_of u g.players _ (play-names_of m g (player_index g u) f.valid e)
      (index-IsNamed u g (turn_index g) (turn ∙ whose_turn-turn_index g f.valid))

-- The game that `newGame` deals from a shuffled deck.
pub record Opens (P : GameState → Type 0) (shuffle : List ℕ → List ℕ) (u : String) (n : ℕ)
    : Type 0 where
  pub game : GameState
  pub result : dealt_game u n (shuffle_new_deck shuffle) ≡ ok game
  pub good : P game
  pub creator : HasCreator game
  pub seat : IsNamed u game.players

-- What a user's requests do to games keeps `P`.
pub record IsClosed (P : GameState → Type 0) (u : String) : Type 0 where
  pub stable : IsStable P
  pub played :
      (m : Move) (g : GameState) (z : ℤ)
      → P g
      → ((h : GameState) × (play m g z ≡ ok h) × P h) ⊎ ((e : Status) × (play m g z ≡ err e))
  pub named :
      (m : Move) (g : GameState) {h : GameState}
      → P g
      → play m g (player_index g u) ≡ ok h
      → IsNamed u h.players
  pub seated : (g : GameState) → P g → P (with_players g (seat_first u g.players))
  pub opened :
      (shuffle : List ℕ → List ℕ) (n : ℕ)
      → Perm (shuffle (count_up 0 52)) (count_up 0 52)
      → 1 < n
      → n ≤ 5
      → Opens P shuffle u n

leader :
    (u : String) (n : ℕ) (ps : List Player)
    → length ps ≡ suc n
    → NamedFrom u 0 ps
    → (p : Player) × (get_elem? ps 0 ≡ some p) × (p.name ≡ some u)
leader u n [] h m = absurd (omega (arith, h))
leader u n (p ∷ ps) h m = (p, refl, m.0)

seat_at :
    {u : String} {p : Player} (ps : List Player)
    → get_elem? ps 0 ≡ some p
    → p.name ≡ some u
    → IsNamed u ps
seat_at [] e n = cc
seat_at (q ∷ ps) e n = inl (cc)

pub dealt_game-Opens :
    (shuffle : List ℕ → List ℕ) (u : String) (n : ℕ)
    → Perm (shuffle (count_up 0 52)) (count_up 0 52)
    → 1 < n
    → n ≤ 5
    → Opens (λ g. IsFull g × NamedFrom u 0 g.players) shuffle u n
unfolding shuffle_new_deck
dealt_game-Opens shuffle u zero p few many = absurd (omega (arith, few))
dealt_game-Opens shuffle u (suc n) p few many =
    let deck : Perm (shuffle_new_deck shuffle) full_deck = Perm.map card_of_index p in
    let d =
      dealt_game-Deals u (suc n) (shuffle_new_deck shuffle) (omega arith) (omega (arith, many))
        (omega (arith, many, length-Perm deck)) in
    let (q, at, named) = leader u n d.game.players d.seats_taken d.named in
    record {
      game = d.game;
      result = d.result;
      good = (record { valid = d.valid; complete = Perm.trans d.same deck }, d.named);
      creator = record { creator = q; creator_name = u; first = at; named = named };
      seat = seat_at d.game.players at named;
    }

-- Where a seat is free, the first one goes to the user.
pub seat_first-IsNamed :
    (u : String) (ps : List Player) → all_of is_present ps ≡ false → IsNamed u (seat_first u ps)
seat_first-IsNamed u [] e = cc
seat_first-IsNamed u (p ∷ ps) e = elim (Bool-cases (is_present p)) [
  | inl taken ↦ rw taken (inr (seat_first-IsNamed u ps (rw taken at e)))
  | inr free ↦ rw free (inl refl)
]

IsFull-IsStable : IsStable IsFull
IsFull-IsStable g id version f = (
  record {
    valid = record {
      crowd = f.valid.crowd;
      turn = f.valid.turn;
      knocker = f.valid.knocker;
      discards = f.valid.discards;
      peeks = f.valid.peeks;
    };
    complete = f.complete;
  },
  record {
    valid = record {
      crowd = f.valid.crowd;
      turn = ground (arith, f.valid.turn);
      knocker = refl;
      discards = f.valid.discards;
      peeks = λ h. cc;
    };
    complete = f.complete;
  },
)

pub IsFull-IsClosed : (u : String) → IsClosed IsFull u
IsFull-IsClosed u = record {
  stable = IsFull-IsStable;
  played = play-IsFull;
  named = λ m g f e. play-IsNamed u m g f e;
  seated = seat_first-IsFull u;
  opened = λ shuffle n p few many.
      let o = dealt_game-Opens shuffle u n p few many in
      record {
        game = o.game;
        result = o.result;
        good = o.good.0;
        creator = o.creator;
        seat = o.seat;
      };
}
