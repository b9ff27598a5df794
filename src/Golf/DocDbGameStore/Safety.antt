-- ===== src/Golf/DocDbGameStore/Safety.antt =====
-- On a reliable database, doc_db_game_store.cc is a safe store.
use moon_base.Base.Dict.{Entries-map}
use moon_base.Base.{ℕ, String, ◌≡◌, sym, subst, Bool-cases, inl, inr, Option, [], ◌∷◌, str_eq}
use moon_base.Base.Dict.{Entries, Entries-lookup}
use moon_base.Absl.{Status}
use moon_base.DocDbClient.{
  Stub, Doc, DocEgg, is_ok_code, insert_doc, update_doc, find_doc_by_id, find_doc_by_tags,
  handle_doc_response, copy_tags,
}
use moon_base.Golf.GameState.{GameState}
use moon_base.Golf.GameStore.Safe.{
  IsStable, restarted, Sound, returns, refuses, Any, Holds, SavedAs, Safe,
}
use moon_base.Golf.DocDbGameStore.{
  add_user, user_exists, new_game, read_game, update_game, read_from, is_not_found, doc_db_store,
}
use moon_base.Golf.DocDbGameStore.Proto.{BackendGameState, game_to_proto}
use moon_base.Golf.DocDbGameStore.Reads.{copied, game_in_bytes}
use moon_base.Golf.DocDbGameStore.Reliable.{IsFound, finds, misses, IsReliable}
use moon_base.Golf.DocDbGameStore.Stored.{IsStored, AllStored, written-Sound}

module _ {W : Type 0} (stub : Stub W) (db : String) (serialize : BackendGameState → String)
    (parse : String → Option BackendGameState) (reliable : IsReliable stub db serialize parse) where
  new_game-Sound :
      (P : GameState → Type 0) (k : ℕ) (g : GameState) (w : W)
      → IsStable P
      → P g
      → AllStored stub db serialize parse reliable P k w
      → Sound
          (AllStored stub db serialize parse reliable P k)
          (SavedAs (doc_db_store stub db serialize parse) P g.players)
          (new_game stub db serialize parse g w)
  unfolding new_game insert_doc
  new_game-Sound P k g w stable good h =
      elim (Bool-cases (str_eq (serialize (game_to_proto g)) "")) [
        | inl e ↦ rw (new_game, insert_doc, e) (refuses h)
        | inr e ↦
            rw (new_game, insert_doc, e)
              (written-Sound stub db serialize parse reliable P k g w _ stable good h
                (reliable.inserts _ w))
      ]

  update_game-Sound :
      (P : GameState → Type 0) (k : ℕ) (g : GameState) (w : W)
      → IsStable P
      → P g
      → AllStored stub db serialize parse reliable P k w
      → Sound
          (AllStored stub db serialize parse reliable P k)
          (SavedAs (doc_db_store stub db serialize parse) P g.players)
          (update_game stub db serialize parse g w)
  unfolding update_game update_doc
  update_game-Sound P k g w stable good h = elim (Bool-cases (str_eq g.game_id "")) [
    | inl e ↦ rw (update_game, update_doc, e) (refuses h)
    | inr e ↦ elim (Bool-cases (str_eq g.version_id "")) [
      | inl f ↦ rw (update_game, update_doc, e, f) (refuses h)
      | inr f ↦ elim (Bool-cases (str_eq (serialize (game_to_proto g)) "")) [
        | inl l ↦ rw (update_game, update_doc, e, f, l) (refuses h)
        | inr l ↦
            rw (update_game, update_doc, e, f, l)
              (written-Sound stub db serialize parse reliable P k g w _ stable good h
                (reliable.updates _ _ w))
      ]
    ]
  ]

  found-Sound :
      (P : GameState → Type 0) (k : ℕ) (id : String) (w : W) (x : Status × Doc)
      → IsFound (reliable.games w) id x
      → AllStored stub db serialize parse reliable P k w
      → Sound
          (AllStored stub db serialize parse reliable P k)
          (Holds P)
          (read_from stub db serialize parse id (handle_doc_response x.0 x.1, w))
  found-Sound P k id w (status, doc) (finds fine at) h =
      let stored =
        Entries-lookup (IsStored stub db serialize parse reliable P) id (reliable.games w) h at in
      rw (fine, game_in_bytes stub db serialize parse stored.game id (copied doc) stored.parsed)
        (returns (stored.good doc.version) h)
  found-Sound P k id w (status, doc) (misses bad none_at) h = rw bad (refuses h)

  read_game-Sound :
      (P : GameState → Type 0) (k : ℕ) (id : String) (w : W)
      → AllStored stub db serialize parse reliable P k w
      → Sound
          (AllStored stub db serialize parse reliable P k)
          (Holds P)
          (read_game stub db serialize parse id w)
  unfolding read_game find_doc_by_id
  read_game-Sound P k id w h = elim (Bool-cases (str_eq id "")) [
    | inl e ↦ rw (read_game, find_doc_by_id, e) (refuses h)
    | inr e ↦
        rw (read_game, find_doc_by_id, e, reliable.reading id w)
          (found-Sound P k id w _ (reliable.reads id w) h)
  ]

  same_games :
      (P : GameState → Type 0) (k : ℕ) (w w' : W)
      → reliable.games w' ≡ reliable.games w
      → AllStored stub db serialize parse reliable P k w
      → AllStored stub db serialize parse reliable P k w'
  same_games P k w w' e h = subst (Entries (IsStored stub db serialize parse reliable P)) (sym e) h

  add_user-Sound :
      (P : GameState → Type 0) (k : ℕ) (u : String) (w : W)
      → AllStored stub db serialize parse reliable P k w
      → Sound
          (AllStored stub db serialize parse reliable P k)
          Any
          (add_user stub db serialize parse u w)
  unfolding add_user insert_doc
  add_user-Sound P k u w h = elim (Bool-cases (str_eq u "")) [
    | inl e ↦ rw (add_user, insert_doc, e) (refuses h)
    | inr e ↦
        let egg : DocEgg = record { bytes = u; tags = copy_tags (("user", u) ∷ []) [] } in
        let answer = stub.rpc_insert_doc db "users" egg w in
        let i = same_games P k w answer.1 (reliable.adds_user egg w) h in
        elim (Bool-cases (is_ok_code answer.0.0.code)) [
          | inl f ↦ rw (add_user, insert_doc, e, f) (returns tt i)
          | inr f ↦ rw (add_user, insert_doc, e, f) (refuses i)
        ]
  ]

  user_exists-Sound :
      (P : GameState → Type 0) (k : ℕ) (u : String) (w : W)
      → AllStored stub db serialize parse reliable P k w
      → Sound
          (AllStored stub db serialize parse reliable P k)
          Any
          (user_exists stub db serialize parse u w)
  unfolding user_exists find_doc_by_tags
  user_exists-Sound P k u w h =
      let tags = copy_tags (("user", u) ∷ []) [] in
      let answer = stub.rpc_find_doc db "users" tags w in
      let i = same_games P k w answer.1 (reliable.finds_user tags w) h in
      elim (Bool-cases (is_ok_code answer.0.0.code)) [
        | inl f ↦ rw (user_exists, find_doc_by_tags, f) (returns tt i)
        | inr f ↦ elim (Bool-cases (is_not_found answer.0.0.code)) [
          | inl l ↦ rw (user_exists, find_doc_by_tags, f, l) (returns tt i)
          | inr l ↦ rw (user_exists, find_doc_by_tags, f, l) (refuses i)
        ]
      ]

  pub doc_db_store-Safe :
      Safe (doc_db_store stub db serialize parse) (AllStored stub db serialize parse reliable)
  doc_db_store-Safe = record {
    weaken = λ P k w h. h;
    widen = λ P Q k w f h.
        Entries-map (reliable.games w)
          (λ id bytes i. record {
            game = i.game;
            parsed = i.parsed;
            good = λ version. f (restarted i.game id version) (i.good version);
          })
          h;
    add_user = add_user-Sound;
    user_exists = user_exists-Sound;
    remove_user = λ P k u w h. refuses h;
    get_users = λ P k w h. refuses h;
    new_game = λ P k g w stable good c h. new_game-Sound P k g w stable good h;
    read_game = read_game-Sound;
    read_game_by_user_id = λ P k u w h. refuses h;
    read_all_games = λ P k w h. refuses h;
    update_game = update_game-Sound;
  }
