-- ===== src/Golf/InMemoryGameStore/Users.antt =====
-- The users that in_memory_game_store.cc keeps are a set.
use moon_base.Base.{
  String, Bool, Bool-cases, true, not, ◌≡◌, refl, ◌||◌, ◌&&◌, inl, inr, if◌then◌else◌, str_eq,
  eq_iff, arith,
}
use moon_base.Base.Dict.{
  member, AreDistinct, member-add, member-erase, add-AreDistinct, erase-AreDistinct,
}
use moon_base.Absl.{ok, err, already_exists_error}
use moon_base.Golf.InMemoryGameStore.{InMemoryGameStore, add_user, user_exists, remove_user}

-- Whether the user is in the set that the store keeps.
abbrev pub is_online : InMemoryGameStore → String → Bool
is_online s u = member u s.users_online

add_user-is_online :
    (u w : String) (s : InMemoryGameStore)
    → is_online (add_user u s).1 w ≡ (str_eq u w || is_online s w)
unfolding add_user
add_user-is_online u w s = elim (Bool-cases (member u s.users_online)) [
  | inl e ↦ rw (add_user, e) (ground (arith, eq_iff u w))
  | inr e ↦ rw (add_user, e) (ground (arith, member-add u w s.users_online))
]

add_user_keeps :
    (u : String) (s : InMemoryGameStore)
    → ((add_user u s).1.games_by_id ≡ s.games_by_id)
      × (AreDistinct s.users_online → AreDistinct (add_user u s).1.users_online)
unfolding add_user
add_user_keeps u s = elim (Bool-cases (member u s.users_online)) [
  | inl e ↦ rw (add_user, e) (refl, λ h. h)
  | inr e ↦ rw (add_user, e) (refl, add-AreDistinct u s.users_online)
]

add_user_result :
    (u : String) (s : InMemoryGameStore)
    → ((add_user u s).0
        ≡ (if is_online s u then err (already_exists_error "already exists") else ok tt))
      × (is_online s u ≡ true → (add_user u s).1 ≡ s)
unfolding add_user
add_user_result u s = elim (Bool-cases (member u s.users_online)) [
  | inl e ↦ rw (add_user, e) (refl, λ h. refl)
  | inr e ↦ rw (add_user, e) (refl, λ h. cc)
]

-- If the users are listed once each, then the store keeps a set of users: `UserExists` tells whether a
-- user is in it; `AddUser` of one who is in it fails and changes nothing, and of another puts that user
-- in; `RemoveUser` takes the user out and does not fail. Nobody else comes or goes, the games stay as
-- they are, and the users stay listed once each.
pub users_lem :
    (u w : String) (s : InMemoryGameStore)
    → AreDistinct s.users_online
    → (user_exists w s ≡ (ok (is_online s w), s))
      × ((add_user u s).0
          ≡ (if is_online s u then err (already_exists_error "already exists") else ok tt))
      × (is_online s u ≡ true → (add_user u s).1 ≡ s)
      × (is_online (add_user u s).1 w ≡ (str_eq u w || is_online s w))
      × ((add_user u s).1.games_by_id ≡ s.games_by_id)
      × AreDistinct (add_user u s).1.users_online
      × ((remove_user u s).0 ≡ ok tt)
      × (is_online (remove_user u s).1 w ≡ (not (str_eq u w) && is_online s w))
      × ((remove_user u s).1.games_by_id ≡ s.games_by_id)
      × AreDistinct (remove_user u s).1.users_online
unfolding remove_user user_exists
users_lem u w s h =
    let (result, same) = add_user_result u s in
    let (games, distinct) = add_user_keeps u s in
    (
      refl,
      result,
      same,
      add_user-is_online u w s,
      games,
      distinct h,
      refl,
      member-erase u w s.users_online h,
      refl,
      erase-AreDistinct u s.users_online h,
    )
