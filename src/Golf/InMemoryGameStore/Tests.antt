-- ===== src/Golf/InMemoryGameStore/Tests.antt =====
-- The store in memory with the small table in it, and the theorems of the store at it.
use moon_base.Base.{
  String, ◌≡◌, ◌≢◌, refl, true, false, not, ◌||◌, ◌&&◌, if◌then◌else◌, str_eq, [], ◌∷◌, arith,
  eq_iff,
}
use moon_base.Base.Dict.{AreDistinct, has_key}
use moon_base.Base.Text.{to_string, to_string_inj}
use moon_base.Absl.{ok, err, already_exists_error}
use moon_base.Golf.Tables.{alice, table, knocked_table, one_game}
use moon_base.Golf.GameState.{is_over, with_id_and_version}
use moon_base.Golf.GameStore.Safe.{HasCreator}
use moon_base.Golf.GameStore.Full.{IsFull}
use moon_base.Golf.InMemoryGameStore.{
  InMemoryGameStore, empty_store, add_user, user_exists, remove_user, new_game, read_game,
  read_game_by_user_id, update_game,
}
use moon_base.Golf.InMemoryGameStore.Laws.{IsConsistent}
use moon_base.Golf.InMemoryGameStore.Users.{is_online, users_lem}
use moon_base.Golf.InMemoryGameStore.Reads.{new_game-read_game, update_game-read_game}

abbrev table_creator : HasCreator table
table_creator = record { creator = alice; creator_name = "alice"; first = refl; named = refl }

empty_store-IsConsistent_1 : IsConsistent IsFull 1 empty_store
empty_store-IsConsistent_1 = record { room = omega arith; kept = tt; pointed = tt }

abbrev alice_name : String
alice_name = "alice"

abbrev no_name : String
no_name = ""

alice_named : alice_name ≢ no_name
alice_named = ground (arith, eq_iff alice_name no_name)

other_id : to_string 0 ≢ to_string 1
other_id e = absurd (omega (arith, to_string_inj 0 1 e))

new_game-read_game_example :
    (t : InMemoryGameStore) × (new_game table empty_store
      ≡ (ok (with_id_and_version table (to_string 0) "foo"), t))
    × (has_key (to_string 0) empty_store.games_by_id ≡ false)
    × (read_game (to_string 0) t ≡ (ok (with_id_and_version table (to_string 0) "foo"), t))
    × (read_game_by_user_id "alice" t ≡ (ok (with_id_and_version table (to_string 0) "foo"), t))
    × ((read_game (to_string 1) t).0 ≡ (read_game (to_string 1) empty_store).0)
new_game-read_game_example =
    new_game-read_game IsFull 0 table empty_store table_creator (to_string 1)
      empty_store-IsConsistent_1 alice_named refl other_id

table-under_way : is_over table ≡ false
unfolding is_over
table-under_way = refl

id_1 : knocked_table.game_id ≢ "1"
id_1 = ground (arith, eq_iff "0" "1")

update_game-read_game_example :
    (t : InMemoryGameStore) × (update_game knocked_table one_game ≡ (ok knocked_table, t))
    × (read_game "0" t ≡ (ok knocked_table, t))
    × ((read_game "1" t).0 ≡ (read_game "1" one_game).0)
update_game-read_game_example =
    update_game-read_game knocked_table table one_game "1" refl table-under_way id_1

abbrev two_online : InMemoryGameStore
two_online = record one_game { users_online = "alice" ∷ "bob_" ∷ [] }

users_lem_example :
    (user_exists "bob_" two_online ≡ (ok (is_online two_online "bob_"), two_online))
    × ((add_user "carol" two_online).0 ≡ (
        if is_online two_online "carol"
        then err (already_exists_error "already exists")
        else ok tt))
    × (is_online two_online "carol" ≡ true → (add_user "carol" two_online).1 ≡ two_online)
    × (is_online (add_user "carol" two_online).1 "bob_"
        ≡ (str_eq "carol" "bob_" || is_online two_online "bob_"))
    × ((add_user "carol" two_online).1.games_by_id ≡ two_online.games_by_id)
    × AreDistinct (add_user "carol" two_online).1.users_online
    × ((remove_user "carol" two_online).0 ≡ ok tt)
    × (is_online (remove_user "carol" two_online).1 "bob_"
        ≡ (not (str_eq "carol" "bob_") && is_online two_online "bob_"))
    × ((remove_user "carol" two_online).1.games_by_id ≡ two_online.games_by_id)
    × AreDistinct (remove_user "carol" two_online).1.users_online
users_lem_example = users_lem "carol" "bob_" two_online (refl, (refl, tt))
