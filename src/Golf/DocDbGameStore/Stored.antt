-- ===== src/Golf/DocDbGameStore/Stored.antt =====
-- The games that doc_db_game_store.cc has in the database, and what writing one gives.
use moon_base.Base.{ℕ, String, ◌≡◌, ◌≢◌, refl, ap, sym, ◌∙◌, subst, true, Option, some}
use mathlib.Core.Option.{some-injective}
use moon_base.Base.Dict.{Dict, lookup, lookup-insert_self, Entries, Entries-insert}
use moon_base.Absl.{Status, ok}
use moon_base.DocDbClient.{Stub, Doc, DocIdAndVersion, is_ok_code, handle_id_and_version_response}
use moon_base.Golf.GameState.{GameState}
use moon_base.Golf.GameStore.Safe.{IsStable, restarted, Sound, returns, refuses, SavedAs}
use moon_base.Golf.DocDbGameStore.{read_game, stored, doc_db_store}
use moon_base.Golf.DocDbGameStore.Proto.{BackendGameState, game_to_proto}
use moon_base.Golf.DocDbGameStore.Turns.{game_found}
use moon_base.Golf.DocDbGameStore.Reliable.{
  IsWritten, writes, loses, fails, IsFound, finds, misses, IsReliable,
}

module _ {W : Type 0} (stub : Stub W) (db : String) (serialize : BackendGameState → String)
    (parse : String → Option BackendGameState) (reliable : IsReliable stub db serialize parse) where
  -- The bytes are those of a game that satisfies `P` once it is started again.
  pub record IsStored (P : GameState → Type 0) (id bytes : String) : Type 0 where
    pub game : GameState
    pub parsed : parse bytes ≡ some (game_to_proto game)
    pub good : (version : String) → P (restarted game id version)

  abbrev pub AllStored : (GameState → Type 0) → ℕ → W → Type 0
  AllStored P k w = Entries (IsStored P) (reliable.games w)

  found_bytes :
      {games : Dict String} {id bytes : String} (x : Status × Doc)
      → IsFound games id x
      → lookup id games ≡ some bytes
      → (is_ok_code x.0.code ≡ true) × (x.1.bytes ≡ bytes)
  found_bytes _ (finds good at) e = (good, some-injective _ _ (sym at ∙ e))
  found_bytes _ (misses bad none_at) e = cc

  -- A game that was written can be read.
  readable :
      (g : GameState) (id : String) (w : W)
      → id ≢ ""
      → lookup id (reliable.games w) ≡ some (serialize (game_to_proto g))
      → (version : String) × (read_game stub db serialize parse id w
          ≡ (ok (restarted g id version), w))
  readable g id w n e =
      let answer = (stub.rpc_find_doc_by_id db "games" id w).0 in
      let (good, same) = found_bytes answer (reliable.reads id w) e in
      (
        answer.1.version,
        game_found stub db serialize parse g id w w answer.0 answer.1
            (ap (λ t. (answer, t)) (reliable.reading id w)) good (ap parse same ∙ reliable.parses g)
            n,
      )

  serialize-IsStored :
      (P : GameState → Type 0) (id : String) (g : GameState)
      → IsStable P
      → P g
      → IsStored P id (serialize (game_to_proto g))
  serialize-IsStored P id g stable good = record {
    game = g;
    parsed = reliable.parses g;
    good = λ version. (stable g id version good).1;
  }

  pub written-Sound :
      (P : GameState → Type 0) (k : ℕ) (g : GameState) (w : W) (x : (Status × DocIdAndVersion) × W)
      → IsStable P
      → P g
      → AllStored P k w
      → IsWritten (reliable.games w) (serialize (game_to_proto g)) x.0 (reliable.games x.1)
      → Sound (AllStored P k) (SavedAs (doc_db_store stub db serialize parse) P g.players) (
          stored stub db serialize parse g
            (handle_id_and_version_response x.0.0 x.0.1.id x.0.1.version, x.1))
  written-Sound P k g w ((status, at), w') stable good h (writes fine n new) =
      let (version, reads) =
        readable g at.id w' n
          (ap (lookup at.id) new ∙ lookup-insert_self at.id _ (reliable.games w)) in
      rw fine (
        returns
          (
            record {
              good = (stable g at.id at.version good).0;
              again = restarted g at.id version;
              readable = reads;
              players = refl;
            },
            refl,
          )
          (subst (Entries (IsStored P)) (sym new) (
            Entries-insert (IsStored P) at.id _ (reliable.games w)
              (serialize-IsStored P at.id g stable good) h)))
  written-Sound P k g w ((status, at), w') stable good h (loses id bad new) = rw bad (
      refuses (
        subst (Entries (IsStored P)) (sym new) (
          Entries-insert (IsStored P) id _ (reliable.games w)
            (serialize-IsStored P id g stable good) h)))
  written-Sound P k g w ((status, at), w') stable good h (fails bad new) =
      rw bad (refuses (subst (Entries (IsStored P)) (sym new) h))
