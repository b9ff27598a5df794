-- ===== src/Golf/Deal/Laws.antt =====
-- What game_manager.cc deals: all the cards of the deck, four to a seat, and a well-formed game.
pub mod Seats
use mathlib.Core.List.{append-nil, append_assoc, perm_middle, perm_append_singleton}
use mathlib.Core.List.Perm
use native.Mathlib.Numerals.{add-one}
use moon_base.Base.{
  ℕ, zero, suc, ◌+◌, ◌*◌, ◌≤◌, ◌<◌, String, ◌≡◌, refl, sym, ap, subst, false, none, some, List, [],
  ◌∷◌, ◌++◌, Perm, arith, ◌==◌, if◌then◌else◌, length, get_elem?, back, pop_back, push_back,
  is_empty, back_nonempty, length-pop_back, length-append, pop_back-perm,
}
use moon_base.Base.Int.{int_max}
use moon_base.Absl.{ok}
use moon_base.Cards.{Card}
use moon_base.Golf.Player.{Player}
use moon_base.Golf.GameState.{GameState}
use moon_base.Golf.GameState.Valid.{IsValid}
use moon_base.Golf.GameState.Conservation.{hands, cards_of}
use moon_base.Golf.Deal.{deal, seats, opening, dealt_game}
pub use moon_base.Golf.Deal.Laws.Seats.{NamedFrom}
use moon_base.Golf.Deal.Laws.Seats.{Holds-left, Holds-right, split_at, seats_lem}

-- What dealing `k` cards leaves.
record Dealt (k : ℕ) (draw dealt : List Card) : Type 0 where
  out : List Card
  rest : List Card
  result : deal k draw dealt ≡ ok (out, rest)
  out_length : length out ≡ length dealt + k
  rest_length : length rest + k ≡ length draw
  same : Perm (rest ++ out) (draw ++ dealt)

nonempty : (xs : List Card) → 0 < length xs → is_empty xs ≡ false
nonempty [] h = elim h [ ]
nonempty (x ∷ xs) h = refl

deal_lem : (k : ℕ) (draw dealt : List Card) → k ≤ length draw → Dealt k draw dealt
unfolding deal
deal_lem zero draw dealt h = record {
  out = dealt;
  rest = draw;
  result = refl;
  out_length = omega arith;
  rest_length = omega arith;
  same = Perm.refl _;
}
deal_lem (suc k) draw dealt h =
    let (c, top) = back_nonempty draw (nonempty draw (omega arith)) in
    let d =
      deal_lem k (pop_back draw) (push_back dealt c) (omega (arith, length-pop_back draw top)) in
    record {
      out = d.out;
      rest = d.rest;
      result = rw top d.result;
      out_length = omega (arith, d.out_length, length-append dealt (c ∷ []));
      rest_length = omega (arith, d.rest_length, length-pop_back draw top);
      same = Perm.trans d.same (moved draw dealt c top);
    }
  where
    moved :
        (draw dealt : List Card) (c : Card)
        → back draw ≡ some c
        → Perm (pop_back draw ++ push_back dealt c) (draw ++ dealt)
    moved draw dealt c top = rw (sym (append_assoc (pop_back draw) dealt (c ∷ []))) (
        Perm.trans (perm_append_singleton c (pop_back draw ++ dealt))
          (Perm.symm (Perm.append_right dealt (pop_back-perm draw top))))

-- All the seats, filled from all the cards dealt.
record AllSeated (user_id : String) (n : ℕ) (out : List Card) : Type 0 where
  seated : List Player
  result : seats user_id out (n * 2) n 0 ≡ ok seated
  number : length seated ≡ n
  named : NamedFrom user_id 0 seated
  same : Perm (hands seated) out

seats_halves :
    (user_id : String) (n : ℕ) (front behind : List Card)
    → length front ≡ 2 * n
    → length behind ≡ 2 * n
    → AllSeated user_id n (front ++ behind)
seats_halves user_id n front behind l m =
    let s =
      seats_lem user_id (front ++ behind) (n * 2) n 0 front behind l m (Holds-left front behind)
        (rw half (Holds-right front behind)) in
    record {
      seated = s.seated;
      result = s.result;
      number = s.number;
      named = s.named;
      same = s.same;
    }
  where
    half : 2 * 0 + n * 2 ≡ length front
    half = omega arith

seats_all :
    (user_id : String) (n : ℕ) (out : List Card) → length out ≡ 4 * n → AllSeated user_id n out
seats_all user_id n out h =
    let (front, behind, e, l) = split_at (2 * n) out (omega arith) in
    subst (AllSeated user_id n) (sym e) (
      seats_halves user_id n front behind l
        (omega (arith, ap length e, length-append front behind)))

-- A game dealt from a deck: what `newGame` hands to the store.
pub record Deals (user_id : String) (n : ℕ) (deck : List Card) : Type 0 where
  pub game : GameState
  pub result : dealt_game user_id n deck ≡ ok game
  pub valid : IsValid game
  pub same : Perm (cards_of game) deck
  pub seats_taken : length game.players ≡ n
  pub drawable : length game.draw_pile + (4 * n + 1) ≡ length deck
  pub named : NamedFrom user_id 0 game.players

-- A deck with more than four cards for each of the players, of whom there is at least one, is dealt
-- out: the game is well formed and holds the deck's cards, four in the hand of each of the `n`
-- players and one on the discard pile; only player 0 has a name, the user's.
pub dealt_game-Deals :
    (user_id : String) (n : ℕ) (deck : List Card)
    → 0 < n
    → n ≤ int_max
    → 4 * n < length deck
    → Deals user_id n deck
unfolding dealt_game
dealt_game-Deals user_id n deck few many enough =
    let d = deal_lem (n * 4) deck [] (omega arith) in
    let s = seats_all user_id n d.out (omega (arith, d.out_length)) in
    let (top, t) = back_nonempty d.rest (nonempty d.rest (omega (arith, d.rest_length))) in
    record {
      game = opening (pop_back d.rest) top s.seated;
      result = rw (d.result, s.result, t);
      valid = record {
        crowd = omega (arith, s.number);
        turn = omega (arith, s.number);
        knocker = refl;
        discards = refl;
        peeks = λ h. cc;
      };
      same = Perm.trans (perm_middle (pop_back d.rest) (hands s.seated)) (
          Perm.trans (Perm.symm (Perm.append_right (hands s.seated) (pop_back-perm d.rest t)))
            (Perm.trans (Perm.append_left d.rest s.same) (rw append-nil at d.same)));
      seats_taken = s.number;
      drawable = omega (arith, d.rest_length, length-pop_back d.rest t);
      named = s.named;
    }
