-- ===== src/Golf/DocDbGameStore/Toy.antt =====
-- A toy of protobuf for the tests: a message as text that can be parsed. A text is a sequence of marks,
-- each of two characters.
use Prim.Native.Char.{Char, code, nul}
use Prim.Native.String.{String}
use moon_base.Base.{
  ℕ, zero, suc, ◌≡◌, refl, ap, ◌∙◌, false, Option, none, some, List, [], ◌∷◌, ◌==◌, if◌then◌else◌,
  length, map,
}
use moon_base.Base.Int.{pos, negsuc, pos_part}
use moon_base.Cards.{Card, suit_index, rank_index}
use moon_base.Golf.Player.{Player}
use moon_base.Golf.GameState.{GameState}
use moon_base.Golf.DocDbGameStore.Proto.{
  CardProto, PlayerProto, BackendGameState, card_to_proto, player_to_proto, game_to_proto,
}

data Mark : Type 0 where
  more : Mark
  stop : Mark
  letter : Char → Mark

abbrev put_ℕ : ℕ → List Mark → List Mark
put_ℕ zero l = stop ∷ l
put_ℕ (suc n) l = more ∷ put_ℕ n l

abbrev get_ℕ : List Mark → ℕ × List Mark
get_ℕ [] = (0, [])
get_ℕ (more ∷ l) = (suc (get_ℕ l).0, (get_ℕ l).1)
get_ℕ (stop ∷ l) = (0, l)
get_ℕ (letter c ∷ l) = (0, l)

get_ℕ-put_ℕ : (n : ℕ) (l : List Mark) → get_ℕ (put_ℕ n l) ≡ (n, l)
get_ℕ-put_ℕ zero l = refl
get_ℕ-put_ℕ (suc n) l = ap (λ x. (suc x.0, x.1)) (get_ℕ-put_ℕ n l)

abbrev put_string : String → List Mark → List Mark
put_string String.[] l = stop ∷ l
put_string (String.◌∷◌ c s) l = letter c ∷ put_string s l

abbrev get_string : List Mark → String × List Mark
get_string [] = (String.[], [])
get_string (more ∷ l) = (String.[], l)
get_string (stop ∷ l) = (String.[], l)
get_string (letter c ∷ l) = (String.◌∷◌ c (get_string l).0, (get_string l).1)

get_string-put_string : (s : String) (l : List Mark) → get_string (put_string s l) ≡ (s, l)
get_string-put_string String.[] l = refl
get_string-put_string (String.◌∷◌ c s) l =
    ap (λ x. (String.◌∷◌ c x.0, x.1)) (get_string-put_string s l)

abbrev put_name : Option String → List Mark → List Mark
put_name none l = stop ∷ l
put_name (some n) l = more ∷ put_string n l

abbrev get_name : List Mark → Option String × List Mark
get_name (more ∷ l) = (some (get_string l).0, (get_string l).1)
get_name l = (none, (get_ℕ l).1)

get_name-put_name : (o : Option String) (l : List Mark) → get_name (put_name o l) ≡ (o, l)
get_name-put_name none l = refl
get_name-put_name (some n) l = ap (λ x. (some x.0, x.1)) (get_string-put_string n l)

put_card : CardProto → List Mark → List Mark
put_card c l = put_ℕ (pos_part c.suit) (put_ℕ (pos_part c.rank) l)

get_card : List Mark → CardProto × List Mark
get_card l =
    let (s, l') = get_ℕ l in let (r, l'') = get_ℕ l' in (record { suit = pos s; rank = pos r }, l'')

get_card-put_card :
    (c : Card) (l : List Mark) → get_card (put_card (card_to_proto c) l) ≡ (card_to_proto c, l)
unfolding get_card put_card
get_card-put_card c l =
    rw
      (
        get_ℕ-put_ℕ (suit_index c.suit) (put_ℕ (rank_index c.rank) l),
        get_ℕ-put_ℕ (rank_index c.rank) l,
      )
      refl

abbrev put_player : PlayerProto → List Mark → List Mark
put_player p l = put_name p.name (
    put_card p.top_left (put_card p.top_right (put_card p.bottom_left (put_card p.bottom_right l))))

abbrev get_player : List Mark → PlayerProto × List Mark
get_player l =
    let (name, l₁) = get_name l in
    let (tl, l₂) = get_card l₁ in
    let (tr, l₃) = get_card l₂ in
    let (bl, l₄) = get_card l₃ in
    let (br, l₅) = get_card l₄ in
    (record { name = name; top_left = tl; top_right = tr; bottom_left = bl; bottom_right = br }, l₅)

get_player-put_player :
    (p : Player) (l : List Mark)
    → get_player (put_player (player_to_proto p) l) ≡ (player_to_proto p, l)
get_player-put_player p l =
    let l₄ = put_card (card_to_proto p.bottom_right_card) l in
    let l₃ = put_card (card_to_proto p.bottom_left_card) l₄ in
    let l₂ = put_card (card_to_proto p.top_right_card) l₃ in
    let l₁ = put_card (card_to_proto p.top_left_card) l₂ in
    rw
      (
        get_name-put_name p.name l₁,
        get_card-put_card p.top_left_card l₂,
        get_card-put_card p.top_right_card l₃,
        get_card-put_card p.bottom_left_card l₄,
        get_card-put_card p.bottom_right_card l,
      )
      refl

module _ {A : Type 0} (put : A → List Mark → List Mark) (get : List Mark → A × List Mark) where
  abbrev put_all : List A → List Mark → List Mark
  put_all [] l = l
  put_all (x ∷ xs) l = put x (put_all xs l)

  abbrev get_all : ℕ → List Mark → List A × List Mark
  get_all zero l = ([], l)
  get_all (suc n) l = let (x, l') = get l in let (xs, l'') = get_all n l' in (x ∷ xs, l'')

  put_list : List A → List Mark → List Mark
  put_list xs l = put_ℕ (length xs) (put_all xs l)

  get_list : List Mark → List A × List Mark
  get_list l = let (n, l') = get_ℕ l in get_all n l'

  module _ {B : Type 0} (f : B → A)
      (gets : (b : B) (l : List Mark) → get (put (f b) l) ≡ (f b, l)) where
    get_all-put_all :
        (bs : List B) (l : List Mark)
        → get_all (length (map f bs)) (put_all (map f bs) l) ≡ (map f bs, l)
    get_all-put_all [] l = refl
    get_all-put_all (b ∷ bs) l = rw (gets b (put_all (map f bs) l), get_all-put_all bs l) refl

    get_list-put_list :
        (bs : List B) (l : List Mark) → get_list (put_list (map f bs) l) ≡ (map f bs, l)
    unfolding get_list put_list
    get_list-put_list bs l =
        rw (get_ℕ-put_ℕ (length (map f bs)) (put_all (map f bs) l)) (get_all-put_all bs l)

-- The turn, the peek and the knock are not written: a stored game has none.
abbrev put_game : BackendGameState → List Mark → List Mark
put_game g l =
    put_list put_card get_card g.draw_pile
      (put_list put_card get_card g.discard_pile (put_list put_player get_player g.players l))

abbrev get_game : List Mark → BackendGameState
get_game l =
    let (draw, l₁) = get_list put_card get_card l in
    let (discard, l₂) = get_list put_card get_card l₁ in
    let (players, l₃) = get_list put_player get_player l₂ in
    record {
      draw_pile = draw;
      discard_pile = discard;
      players = players;
      peeked_at_draw_pile = false;
      whose_turn = pos 0;
      who_knocked = negsuc 0;
    }

get_game-put_game :
    (g : GameState) (l : List Mark) → get_game (put_game (game_to_proto g) l) ≡ game_to_proto g
unfolding game_to_proto
get_game-put_game g l =
    let l₂ = put_list put_player get_player (map player_to_proto g.players) l in
    let l₁ = put_list put_card get_card (map card_to_proto g.discard_pile) l₂ in
    rw
      (
        get_list-put_list put_card get_card card_to_proto get_card-put_card g.draw_pile l₁,
        get_list-put_list put_card get_card card_to_proto get_card-put_card g.discard_pile l₂,
        get_list-put_list put_player get_player player_to_proto get_player-put_player g.players l,
      )
      refl

-- The marks as text.
abbrev put_marks : List Mark → String
put_marks [] = String.[]
put_marks (more ∷ l) = String.◌∷◌ "m" (String.◌∷◌ nul (put_marks l))
put_marks (stop ∷ l) = String.◌∷◌ "s" (String.◌∷◌ nul (put_marks l))
put_marks (letter c ∷ l) = String.◌∷◌ "l" (String.◌∷◌ c (put_marks l))

abbrev mark_of : Char → Char → Mark
mark_of k c = if code k == 109 then more else if code k == 115 then stop else letter c

abbrev get_marks : String → List Mark
get_marks String.[] = []
get_marks (String.◌∷◌ k String.[]) = []
get_marks (String.◌∷◌ k (String.◌∷◌ c s)) = mark_of k c ∷ get_marks s

get_marks-put_marks : (l : List Mark) → get_marks (put_marks l) ≡ l
get_marks-put_marks [] = refl
get_marks-put_marks (more ∷ l) = ap (◌∷◌ more) (get_marks-put_marks l)
get_marks-put_marks (stop ∷ l) = ap (◌∷◌ stop) (get_marks-put_marks l)
get_marks-put_marks (letter c ∷ l) = ap (◌∷◌ (letter c)) (get_marks-put_marks l)

pub toy_serialize : BackendGameState → String
toy_serialize g = put_marks (put_game g [])

pub toy_parse : String → Option BackendGameState
toy_parse t = some (get_game (get_marks t))

pub toy_parse-toy_serialize :
    (g : GameState) → toy_parse (toy_serialize (game_to_proto g)) ≡ some (game_to_proto g)
unfolding toy_parse toy_serialize
toy_parse-toy_serialize g =
    ap (λ l. some (get_game l)) (get_marks-put_marks (put_game (game_to_proto g) []))
    ∙ ap some (get_game-put_game g [])
