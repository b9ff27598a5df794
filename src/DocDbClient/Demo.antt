-- ===== src/DocDbClient/Demo.antt =====
-- cpp/doc_db_client/doc_db_demo.cc: a program that calls the client four times and prints what it gets.
-- The lines that it has printed are a list. `->` on a StatusOr without a value is undefined.
pub mod Reports
pub mod Stages
pub mod Course
use Prim.Native.String.{◌++◌}
use moon_base.Base.{String, Bool, true, false, List, [], ◌∷◌, push_back, if◌then◌else◌}
use moon_base.Base.Dict.{Dict}
use moon_base.Absl.{StatusOr, ok, err, fault, undefined}
use moon_base.Golf.GameStore.{Action, ◌>>=◌, pure}
use moon_base.DocDbClient.{
  Stub, DocEgg, DocIdAndVersion, Doc, insert_doc, update_doc, find_doc_by_id, find_doc_by_tags,
}

-- What is outside the program, and what it has printed.
pub record Console (W : Type 0) : Type 0 where
  pub world : W
  pub printed : List String

-- `std::cout << line << std::endl`
abbrev pub print_line : {W : Type 0} → String → Action (Console W) (Unit {0})
print_line line v = (ok tt, record v { printed = push_back v.printed line })

-- A `bool` on `std::cout`.
abbrev pub show_bool : Bool → String
show_bool b = if b then "1" else "0"

abbrev pub is_ok : {A : Type 0} → StatusOr A → Bool
is_ok (ok a) = true
is_ok _ = false

-- `->` of a StatusOr.
abbrev pub value_of : {A : Type 0} → StatusOr A → StatusOr A
value_of (ok a) = ok a
value_of (err e) = fault undefined
value_of (fault b) = fault b

-- The result of a call, an error included; a fault of the call goes on.
abbrev pub settled :
    {W A : Type 0} → List String → StatusOr A × W → StatusOr (StatusOr A) × Console W
settled lines (fault b, w) = (fault b, record { world = w; printed = lines })
settled lines (ok a, w) = (ok (ok a), record { world = w; printed = lines })
settled lines (err e, w) = (ok (err e), record { world = w; printed = lines })

abbrev pub calls : {W A : Type 0} → (W → StatusOr A × W) → Action (Console W) (StatusOr A)
calls call v = settled v.printed (call v.world)

-- `print_doc_id_and_version`
unfoldable pub print_doc_id_and_version :
    {W : Type 0} → String → StatusOr DocIdAndVersion → Action (Console W) (Unit {0})
print_doc_id_and_version op status_doc_id = do
  _ ← print_line (op ++ ":")
  _ ← print_line ("     status: " ++ show_bool (is_ok status_doc_id))
  a ← pure (value_of status_doc_id)
  _ ← print_line ("         id: " ++ a.id)
  b ← pure (value_of status_doc_id)
  _ ← print_line ("    version: " ++ b.version)
  print_line ""

-- The loop of `print_doc` over the tags.
unfoldable pub print_tags : {W : Type 0} → Dict String → Action (Console W) (Unit {0})
print_tags [] = pure (ok tt)
print_tags ((tag_name, tag_value) ∷ tags) = do
  _ ← print_line ("             " ++ tag_name ++ ": " ++ tag_value)
  print_tags tags

-- `print_doc`
unfoldable pub print_doc : {W : Type 0} → String → StatusOr Doc → Action (Console W) (Unit {0})
unfolding print_tags
print_doc op status_doc = do
  _ ← print_line (op ++ ":")
  _ ← print_line ("     status: " ++ show_bool (is_ok status_doc))
  a ← pure (value_of status_doc)
  _ ← print_line ("         id: " ++ a.id)
  b ← pure (value_of status_doc)
  _ ← print_line ("    version: " ++ b.version)
  c ← pure (value_of status_doc)
  _ ← print_line ("      bytes: " ++ c.bytes)
  _ ← print_line "       tags: "
  d ← pure (value_of status_doc)
  _ ← print_tags d.tags
  print_line ""

abbrev pub tippy : Dict String
tippy = ("player_1", "Tippy") ∷ []

abbrev pub tippy_egg : DocEgg
tippy_egg = record { bytes = "hello this is nice"; tags = tippy }

abbrev pub over_egg : DocEgg
over_egg = record {
  bytes = "new bytes yo";
  tags = ("player_1", "Tippy") ∷ ("is_over", "true") ∷ [];
}

module _ {W : Type 0} (stub : Stub W) where
  -- `main` once the update has been reported.
  unfoldable pub find_updated : StatusOr DocIdAndVersion → Action (Console W) (Unit {0})
  unfolding print_doc
  find_updated result3 = do
    updated ← pure (value_of result3)
    result4 ← calls (find_doc_by_id stub "demo" "golf" updated.id)
    print_doc "FindDocById" result4

  -- `main` once the document that was found has been reported.
  unfoldable pub update_found : StatusOr Doc → Action (Console W) (Unit {0})
  unfolding print_doc_id_and_version find_updated
  update_found result2 = do
    id ← pure (value_of result2)
    version ← pure (value_of result2)
    result3 ←
        calls (
          update_doc stub "demo" "golf" (record { id = id.id; version = version.version }) over_egg)
    _ ← print_doc_id_and_version "UpdateDoc" result3
    find_updated result3

  -- `main` once the new document has been reported.
  unfoldable pub find_inserted : Action (Console W) (Unit {0})
  unfolding print_doc update_found
  find_inserted = do
    result2 ← calls (find_doc_by_tags stub "demo" "golf" tippy)
    _ ← print_doc "FindDocByTags" result2
    update_found result2

  -- `main`, on the stub that it makes.
  unfoldable pub main : Action (Console W) (Unit {0})
  unfolding print_doc_id_and_version find_inserted
  main = do
    result1 ← calls (insert_doc stub "demo" "golf" tippy_egg)
    _ ← print_doc_id_and_version "InsertDoc" result1
    find_inserted
