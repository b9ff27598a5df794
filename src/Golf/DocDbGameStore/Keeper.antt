-- ===== src/Golf/DocDbGameStore/Keeper.antt =====
-- A database for the tests that keeps what it is given.
use Prim.Native.String.{String}
use moon_base.Base.{
  ◌≡◌, ◌≢◌, refl, Bool, inl, inr, Option-cases, str_eq, eq_iff, arith, none, some, [],
  if◌then◌else◌,
}
use moon_base.Base.Dict.{Dict, lookup, insert}
use moon_base.Absl.{Status, code_ok, not_found}
use moon_base.DocDbClient.{Stub, Doc, DocIdAndVersion}
use moon_base.Golf.DocDbGameStore.Reliable.{IsFound, finds, misses, writes, IsReliable}
use moon_base.Golf.DocDbGameStore.Toy.{toy_serialize, toy_parse, toy_parse-toy_serialize}

-- A database with room for the users and for one game, with the id 7.
abbrev pub done : Status
done = record { code = code_ok; message = "" }

abbrev pub missing : Status
missing = record { code = not_found; message = "no such document" }

abbrev pub place : DocIdAndVersion
place = record { id = "7"; version = "1" }

abbrev pub document_at : String → Dict String → Status × Doc
document_at id w = elim (lookup id w) [
  | none ↦ (missing, record { id = ""; version = ""; bytes = ""; tags = [] })
  | some b ↦ (done, record { id = id; version = "1"; bytes = b; tags = [] })
]

abbrev is_games : String → Bool
is_games collection = str_eq collection "games"

abbrev pub keeper : Stub (Dict String)
keeper = record {
  rpc_insert_doc = λ db collection egg w.
      ((done, place), if is_games collection then insert "7" egg.bytes w else w);
  rpc_update_doc = λ db collection at egg w.
      ((done, place), if is_games collection then insert "7" egg.bytes w else w);
  rpc_find_doc_by_id = λ db collection id w. (document_at id w, w);
  rpc_find_doc = λ db collection tags w.
      ((done, record { id = "1"; version = "1"; bytes = "user"; tags = tags }), w);
}

abbrev no_text : String
no_text = ""

id_nonempty : place.id ≢ no_text
id_nonempty = ground (arith, eq_iff place.id no_text)

document_at-IsFound : (id : String) (w : Dict String) → IsFound w id (document_at id w)
document_at-IsFound id w = elim (Option-cases (lookup id w)) [
  | inl e ↦ rw (document_at, e) (misses refl e)
  | inr (b, e) ↦ rw (document_at, e) (finds refl e)
]

pub keeper-IsReliable : IsReliable keeper "golf" toy_serialize toy_parse
keeper-IsReliable = record {
  games = λ w. w;
  parses = toy_parse-toy_serialize;
  reads = document_at-IsFound;
  reading = λ id w. refl;
  inserts = λ egg w. writes refl id_nonempty refl;
  updates = λ at egg w. writes refl id_nonempty refl;
  adds_user = λ egg w. refl;
  finds_user = λ tags w. refl;
}

pub keeper-no_games : keeper-IsReliable.games [] ≡ []
unfolding keeper-IsReliable
keeper-no_games = refl
