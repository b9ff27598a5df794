-- ===== src/DocDbClient/Tests.antt =====
-- A database that answers with the last document, and the theorems of the client over it.
use moon_base.Base.{String, ◌≡◌, ◌⊎◌, refl, [], ◌∷◌, is_empty, str_eq}
use moon_base.Base.Dict.{Dict}
use moon_base.Absl.{Status, code_ok}
use moon_base.DocDbClient.{
  Stub, DocEgg, DocIdAndVersion, insert_doc, update_doc, find_doc_by_id, find_doc_by_tags,
}
use moon_base.DocDbClient.Demo.{main}
use moon_base.DocDbClient.Demo.Reports.{Breaks}
use moon_base.DocDbClient.Demo.Course.{IsReported, main_lem}
use moon_base.DocDbClient.Requests.{answer, unless_empty, changes_lem, finds_lem}

abbrev done : Status
done = record { code = code_ok; message = "" }

abbrev place : DocIdAndVersion
place = record { id = "7"; version = "1" }

abbrev kinds : Dict String
kinds = ("kind", "game") ∷ ("size", "small") ∷ []

abbrev egg : DocEgg
egg = record { bytes = "bytes"; tags = kinds }

abbrev database : Stub DocEgg
database = record {
  rpc_insert_doc = λ db collection x w. ((done, place), x);
  rpc_update_doc = λ db collection at x w. ((done, at), x);
  rpc_find_doc_by_id = λ db collection id w.
      ((done, record { id = id; version = "1"; bytes = w.bytes; tags = w.tags }), w);
  rpc_find_doc = λ db collection tags w.
      ((done, record { id = "7"; version = "1"; bytes = w.bytes; tags = w.tags }), w);
}

changes_lem_example :
    (insert_doc database "golf" "games" egg egg
      ≡ unless_empty
          (("collection", str_eq "games" "") ∷ ("bytes", str_eq egg.bytes "") ∷ [])
          egg
          (answer (database.rpc_insert_doc "golf" "games" egg egg)))
    × (update_doc database "golf" "games" place egg egg
        ≡ unless_empty
            (("collection", str_eq "games" "")
              ∷ ("id", str_eq place.id "")
              ∷ ("version", str_eq place.version "")
              ∷ ("bytes", str_eq egg.bytes "")
              ∷ [])
            egg
            (answer (database.rpc_update_doc "golf" "games" place egg egg)))
changes_lem_example = changes_lem database "golf" "games" place egg egg (refl, (refl, tt))

finds_lem_example :
    (find_doc_by_id database "golf" "games" "7" egg
      ≡ unless_empty
          (("collection", str_eq "games" "") ∷ ("id", str_eq "7" "") ∷ [])
          egg
          (answer (database.rpc_find_doc_by_id "golf" "games" "7" egg)))
    × (find_doc_by_tags database "golf" "games" kinds egg
        ≡ unless_empty
            (("collection", str_eq "games" "") ∷ ("tags", is_empty kinds) ∷ [])
            egg
            (answer (database.rpc_find_doc "golf" "games" kinds egg)))
finds_lem_example =
    finds_lem database "golf" "games" "7" kinds egg (refl, (refl, tt)) (refl, (refl, tt))
      (refl, (refl, tt))

main_lem_example :
    Breaks (main database (record { world = egg; printed = [] }))
    ⊎ IsReported database
        (record { world = egg; printed = [] })
        (main database (record { world = egg; printed = [] }))
main_lem_example = main_lem database (record { world = egg; printed = [] })
