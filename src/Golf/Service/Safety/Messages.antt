-- ===== src/Golf/Service/Safety/Messages.antt =====
-- Over a safe store every message that handlers.cc is sent is answered.
use moon_base.Base.{ℕ, suc, String, ◌≡◌, refl, ◌⊎◌, inl, inr, Option-cases, Perm}
use moon_base.Base.Dict.{lookup}
use moon_base.Absl.{Status}
use moon_base.Golf.GameState.{GameState, peek, discard_draw, swap_draw, swap_discard, knocks}
use moon_base.Golf.Deal.{count_up}
use moon_base.Golf.GameStore.{GameStore}
use moon_base.Golf.GameStore.Safe.{Safe}
use moon_base.Golf.GameManager
use moon_base.Golf.GameManager.{manager_play}
use moon_base.Golf.GameManager.Safety.{join_game-Sound, new_game-Sound}
use moon_base.Golf.Service.{
  Service, RequestKind, RequestWrapper, register_user_request, new_game_request, join_game_request,
  peek_request, discard_draw_request, knock_request, swap_for_draw_request,
  swap_for_discard_request,
}
use moon_base.Golf.Service.Handlers.{
  Json, Shuffle, Handling, invalid_request, register_user, new_game, join_game, peek_at_draw_pile,
  discard_from_draw_pile, swap_for_draw_pile, swap_for_discard_pile, knock, handlers, dispatch,
  handle_message,
}
use moon_base.Golf.Service.Known.{KnownTo}
use moon_base.Golf.Service.Invariant.{error, unread}
use moon_base.Golf.Service.Answers.{outside, IsReady, IsAnswered, send-IsAnswered}
use moon_base.Golf.Service.Safety.{weaken-IsServing, weaken-IsReady, for_user-IsAnswered}
use moon_base.Golf.Service.Safety.Requests.{
  register-IsAnswered, refused, keeps, move-IsAnswered, swap-IsAnswered,
}
use moon_base.Base.Dict.{Entries, Entries-lookup}

module _ {S : Type 0} (store : GameStore S) (I : (GameState → Type 0) → ℕ → S → Type 0)
    (safe : Safe store I) (json : Json) where
  -- What a handler promises of any request that comes on any connection.
  abbrev Answers : Handling S → Type 0
  Answers handler =
      (k c : ℕ) (shuffle : Shuffle) (kind : RequestKind) (v : Service S)
      → Perm (shuffle (count_up 0 52)) (count_up 0 52)
      → IsReady json I (suc k) c v
      → IsAnswered json I k c (outside v) (handler shuffle kind c v)

  register_user-Answers : Answers (register_user store json)
  unfolding register_user invalid_request
  register_user-Answers k c shuffle (register_user_request u) v p h =
      register-IsAnswered store I safe json k c u shuffle v
        (weaken-IsReady store I safe json k c v h)
  register_user-Answers k c shuffle kind v p h = refused store I safe json k c v h

  new_game-Answers : Answers (new_game store json)
  unfolding new_game invalid_request
  new_game-Answers k c shuffle (new_game_request u n) v p h =
      for_user-IsAnswered store I safe json k c u (GameManager.new_game store shuffle u n) v h
        (λ at.
          new_game-Sound store I safe (KnownTo v.connections_by_user) k shuffle u n v.store
            (keeps store I safe json v u c at) p h.serving.stored)
  new_game-Answers k c shuffle kind v p h = refused store I safe json k c v h

  join_game-Answers : Answers (join_game store json)
  unfolding join_game invalid_request
  join_game-Answers k c shuffle (join_game_request u id) v p h =
      for_user-IsAnswered store I safe json k c u (GameManager.join_game store id u) v h (λ at.
        join_game-Sound store I safe (KnownTo v.connections_by_user) k id u v.store
          (keeps store I safe json v u c at)
          (weaken-IsServing store I safe json k v h.serving).stored)
  join_game-Answers k c shuffle kind v p h = refused store I safe json k c v h

  peek_at_draw_pile-Answers : Answers (peek_at_draw_pile store json)
  unfolding peek_at_draw_pile invalid_request
  peek_at_draw_pile-Answers k c shuffle (peek_request u id) v p h =
      move-IsAnswered store I safe json peek k c u id v h
  peek_at_draw_pile-Answers k c shuffle kind v p h = refused store I safe json k c v h

  discard_from_draw_pile-Answers : Answers (discard_from_draw_pile store json)
  unfolding discard_from_draw_pile invalid_request
  discard_from_draw_pile-Answers k c shuffle (discard_draw_request u id) v p h =
      move-IsAnswered store I safe json discard_draw k c u id v h
  discard_from_draw_pile-Answers k c shuffle kind v p h = refused store I safe json k c v h

  swap_for_draw_pile-Answers : Answers (swap_for_draw_pile store json)
  unfolding swap_for_draw_pile invalid_request
  swap_for_draw_pile-Answers k c shuffle (swap_for_draw_request u id z) v p h =
      swap-IsAnswered store I safe json swap_draw k c u id z v h
  swap_for_draw_pile-Answers k c shuffle kind v p h = refused store I safe json k c v h

  swap_for_discard_pile-Answers : Answers (swap_for_discard_pile store json)
  unfolding swap_for_discard_pile invalid_request
  swap_for_discard_pile-Answers k c shuffle (swap_for_discard_request u id z) v p h =
      swap-IsAnswered store I safe json swap_discard k c u id z v h
  swap_for_discard_pile-Answers k c shuffle kind v p h = refused store I safe json k c v h

  knock-Answers : Answers (knock store json)
  unfolding knock invalid_request
  knock-Answers k c shuffle (knock_request u id) v p h =
      move-IsAnswered store I safe json knocks k c u id v h
  knock-Answers k c shuffle kind v p h = refused store I safe json k c v h

  handlers-Answer : Entries (λ command handler. Answers handler) (handlers store json)
  unfolding handlers
  handlers-Answer = (
    register_user-Answers,
    (
      new_game-Answers,
      (
        join_game-Answers,
        (
          peek_at_draw_pile-Answers,
          (
            discard_from_draw_pile-Answers,
            (swap_for_draw_pile-Answers, (swap_for_discard_pile-Answers, (knock-Answers, tt))),
          ),
        ),
      ),
    ),
  )

  dispatch-IsAnswered :
      (k c : ℕ) (request : RequestWrapper) (shuffle : Shuffle) (v : Service S)
      → Perm (shuffle (count_up 0 52)) (count_up 0 52)
      → IsReady json I (suc k) c v
      → IsAnswered json I k c (outside v) (dispatch store json request shuffle c v)
  unfolding dispatch
  dispatch-IsAnswered k c request shuffle v p h =
      elim (Option-cases (lookup request.command (handlers store json))) [
        | inl e ↦
            rw (dispatch, e)
              (send-IsAnswered json I k c _ v (error "bad_command" refl)
                (weaken-IsReady store I safe json k c v h))
        | inr (handler, e) ↦
            rw (dispatch, e)
              (Entries-lookup (λ command handler. Answers handler) request.command
                (handlers store json) handlers-Answer e k c shuffle request.kind v p h)
      ]

  pub handle_message-IsAnswered :
      (k c : ℕ) (text : String) (shuffle : Shuffle) (v : Service S)
      → Perm (shuffle (count_up 0 52)) (count_up 0 52)
      → IsReady json I (suc k) c v
      → IsAnswered json I k c (outside v) (handle_message store json text shuffle c v)
  unfolding handle_message
  handle_message-IsAnswered k c text shuffle v p h = elim (reading (json.from_json text)) [
    | inl (e, read) ↦
        rw (handle_message, read)
          (send-IsAnswered json I k c e.message v (unread text e read refl)
            (weaken-IsReady store I safe json k c v h))
    | inr (request, read) ↦
        rw (handle_message, read) (dispatch-IsAnswered k c request shuffle v p h)
  ]
    where
      reading :
          (x : Status ⊎ RequestWrapper)
          → ((e : Status) × (x ≡ inl e)) ⊎ ((r : RequestWrapper) × (x ≡ inr r))
      reading (inl e) = inl (e, refl)
      reading (inr r) = inr (r, refl)
