-- ===== src/Golf/InMemoryGameStore/Contract/Tests.antt =====
-- Calls of a store, and what they answer.
use moon_base.Base.{◌≡◌, refl, false, List, [], ◌∷◌}
use moon_base.Absl.{ok, err, invalid_argument_error, already_exists_error, not_found_error}
use moon_base.Base.Text.{to_string}
use moon_base.Golf.Tables.{table, knocked_table}
use moon_base.Golf.GameState.{is_over}
use moon_base.Golf.InMemoryGameStore.{empty_store, in_memory_store}
use moon_base.Golf.InMemoryGameStore.Contract.{
  Call, adds_user, asks_for_user, removes_user, reads_by_user, opens, updates, done, says, gives,
  nothing, reply, replies, specified, opened_as,
}
use moon_base.Golf.InMemoryGameStore.Contract.Refinement.{replies-empty_store}

-- A game is opened, for its first player alone, and updated until it is over; then it is not updated any
-- more.
abbrev calls : List Call
calls =
    adds_user "alice"
    ∷ adds_user "alice"
    ∷ opens table
    ∷ reads_by_user "bob_"
    ∷ updates knocked_table
    ∷ updates (record knocked_table { draw_pile = [] })
    ∷ updates table
    ∷ reads_by_user "bob_"
    ∷ removes_user "alice"
    ∷ asks_for_user "alice"
    ∷ []

-- The update of the game that is over is refused.
replies-specified :
    replies specified calls nothing
    ≡ ok done
      ∷ err (already_exists_error "already exists")
      ∷ ok (gives table)
      ∷ err (not_found_error "game not found")
      ∷ ok (gives knocked_table)
      ∷ ok (gives (record knocked_table { draw_pile = [] }))
      ∷ err (invalid_argument_error "game is over")
      ∷ ok (gives (record knocked_table { draw_pile = [] }))
      ∷ ok done
      ∷ ok (says false)
      ∷ []
unfolding replies specified opened_as is_over to_string
replies-specified = refl

replies-empty_store_example :
    replies (reply in_memory_store) calls empty_store ≡ replies specified calls nothing
replies-empty_store_example = replies-empty_store calls
