-- ===== src/DocDbClient/Demo/Reports.antt =====
-- The reports that doc_db_demo.cc prints.
use Prim.Native.String.{◌++◌}
use mathlib.Core.List.{append_assoc, append-nil}
use moon_base.Base.{String, ◌≡◌, refl, ap, sym, ◌∙◌, List, [], ◌∷◌, ◌++◌ as ◌⧺◌, push_back}
use moon_base.Base.Dict.{Dict}
use moon_base.Absl.{Status, StatusOr, ok, err, fault, undefined}
use moon_base.Golf.GameStore.{◌>>=◌}
use moon_base.DocDbClient.{DocIdAndVersion, Doc}
use moon_base.DocDbClient.Demo.{
  Console, print_line, print_doc_id_and_version, print_tags, print_doc,
}

-- The report of an id and a version.
abbrev pub place_lines : String → DocIdAndVersion → List String
place_lines op a =
    (op ++ ":")
    ∷ "     status: 1"
    ∷ ("         id: " ++ a.id)
    ∷ ("    version: " ++ a.version)
    ∷ ""
    ∷ []

abbrev pub tag_lines : Dict String → List String
tag_lines [] = []
tag_lines ((k, v) ∷ tags) = ("             " ++ k ++ ": " ++ v) ∷ tag_lines tags

-- The report of a document.
abbrev pub doc_lines : String → Doc → List String
doc_lines op d =
    (op ++ ":")
    ∷ "     status: 1"
    ∷ ("         id: " ++ d.id)
    ∷ ("    version: " ++ d.version)
    ∷ ("      bytes: " ++ d.bytes)
    ∷ "       tags: "
    ∷ (tag_lines d.tags ⧺ "" ∷ [])

-- The run ends in undefined behaviour, right after it has printed that a call had failed.
abbrev pub Breaks : {W : Type 0} → StatusOr (Unit {0}) × Console W → Type 0
Breaks x =
    (x.0 ≡ fault undefined)
    × ((lines : List String) × (x.1.printed ≡ push_back lines "     status: 0"))

module _ {W : Type 0} where
  abbrev pub after : Console W → List String → Console W
  after v lines = record v { printed = v.printed ⧺ lines }

  pub print_doc_id_and_version_lem :
      (op : String) (a : DocIdAndVersion) (v : Console W)
      → print_doc_id_and_version op (ok a) v ≡ (ok tt, after v (place_lines op a))
  unfolding print_doc_id_and_version
  print_doc_id_and_version_lem op a v =
      ap (λ x. (ok tt, record v { printed = x })) (simp append_assoc refl)

  pub print_doc_id_and_version-Breaks :
      (op : String) (e : Status) (v : Console W) → Breaks (print_doc_id_and_version op (err e) v)
  unfolding print_doc_id_and_version
  print_doc_id_and_version-Breaks op e v = (refl, (_, refl))

  print_tags_lem :
      (tags : Dict String) (v : Console W) → print_tags tags v ≡ (ok tt, after v (tag_lines tags))
  unfolding print_tags
  print_tags_lem [] v = ap (λ x. (ok tt, record v { printed = x })) (sym (append-nil v.printed))
  print_tags_lem ((k, t) ∷ tags) v =
      let line = "             " ++ k ++ ": " ++ t in
      print_tags_lem tags (record v { printed = push_back v.printed line })
      ∙ ap (λ x. (ok tt, record v { printed = x }))
          (append_assoc v.printed (line ∷ []) (tag_lines tags))

  pub print_doc_lem :
      (op : String) (d : Doc) (v : Console W)
      → print_doc op (ok d) v ≡ (ok tt, after v (doc_lines op d))
  unfolding print_doc
  print_doc_lem op d v =
      ap (λ x. ((λ _. x) >>= λ _. print_line "") v) (print_tags_lem d.tags _)
      ∙ ap (λ x. (ok tt, record v { printed = x })) (simp append_assoc refl)

  pub print_doc-Breaks :
      (op : String) (e : Status) (v : Console W) → Breaks (print_doc op (err e) v)
  unfolding print_doc
  print_doc-Breaks op e v = (refl, (_, refl))
