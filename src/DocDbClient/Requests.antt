-- ===== src/DocDbClient/Requests.antt =====
-- What doc_db_client.cc refuses it does not send, and what it sends and is answered it passes on.
use Prim.Native.String.{◌++◌ as ◌⧺◌}
use mathlib.Core.List.{append_assoc, append-nil}
use moon_base.Base.{
  String, Bool, Bool-cases, true, false, ◌≡◌, refl, ap, ◌∙◌, sym, inl, inr, Option, none, some,
  List, [], ◌∷◌, ◌++◌, is_empty, str_eq, eq_iff, arith, if◌then◌else◌,
}
use moon_base.Base.Dict.{Dict, Entries, lookup-insert, has_key, lookup, insert}
use moon_base.Absl.{Status, StatusOr, ok, err, invalid_argument_error}
use moon_base.DocDbClient.{
  DocIdAndVersion, DocEgg, Stub, is_ok_code, copy_tags, populate_doc_egg, insert_doc, update_doc,
  find_doc_by_id, find_doc_by_tags,
}

-- Tags as the code has them: no key twice.
abbrev pub IsMap : Dict String → Type 0
IsMap [] = Unit
IsMap ((k, v) ∷ m) = (has_key k m ≡ false) × IsMap m

-- What is refused: the first part of the request that is empty.
abbrev pub first_empty : List (String × Bool) → Option String
first_empty [] = none
first_empty ((part, empty) ∷ parts) =
    if empty then some (part ⧺ " cannot be empty") else first_empty parts

-- The answer is the reply where the status is OK, and otherwise the status.
abbrev pub answer : {W A : Type 0} → (Status × A) × W → StatusOr A × W
answer ((status, reply), w) = (if is_ok_code status.code then ok reply else err status, w)

abbrev pub unless_empty :
    {W A : Type 0} → List (String × Bool) → W → StatusOr A × W → StatusOr A × W
unless_empty parts w sent = elim (first_empty parts) [
  | some m ↦ (err (invalid_argument_error m), w)
  | none ↦ sent
]

-- A key that is not in a map is not its first, nor in the rest.
missing :
    (k j w : String) (m : Dict String)
    → has_key k ((j, w) ∷ m) ≡ false
    → (str_eq j k ≡ false) × (has_key k m ≡ false)
missing k j w m h = elim (Bool-cases (str_eq j k)) [
  | inl e ↦ absurd (found (str_eq j k) e h)
  | inr e ↦ (e, rw (has_key, e) at h)
]
  where
    found :
        (b : Bool)
        → b ≡ true
        → (elim (if b then some w else lookup k m) [ none ↦ false | some _ ↦ true ]) ≡ false
        → ⊥
    found true e f = cc
    found false e f = cc

insert_last :
    (k v : String) (m : Dict String) → has_key k m ≡ false → insert k v m ≡ m ++ (k, v) ∷ []
unfolding insert
insert_last k v [] h = refl
insert_last k v ((j, w) ∷ m) h =
    let (other, later) = missing k j w m h in rw (insert, other, insert_last k v m later) refl

-- The keys of `kvs` are not in `m`.
abbrev AreNew : Dict String → Dict String → Type 0
AreNew kvs m = Entries (λ k _. has_key k m ≡ false) kvs

new_after :
    (k v : String) (kvs m : Dict String)
    → has_key k kvs ≡ false
    → AreNew kvs m
    → AreNew kvs (insert k v m)
new_after k v [] m h a = tt
new_after k v ((j, w) ∷ kvs) m h a =
    let (other, later) = missing k j w kvs h in (apart other, new_after k v kvs m later a.1)
  where
    apart : str_eq j k ≡ false → has_key j (insert k v m) ≡ false
    apart e =
        let after = lookup-insert k j v m in
        let new : str_eq k j ≡ false = ground (arith, e, eq_iff j k, eq_iff k j) in
        rw (has_key, after, new) a.0

copy_tags_from : (kvs m : Dict String) → IsMap kvs → AreNew kvs m → copy_tags kvs m ≡ m ++ kvs
copy_tags_from [] m h a = sym (append-nil m)
copy_tags_from ((k, v) ∷ kvs) m h a =
    copy_tags_from kvs (insert k v m) h.1 (new_after k v kvs m h.0 a.1)
    ∙ ap (λ x. x ++ kvs) (insert_last k v m a.0)
    ∙ append_assoc m ((k, v) ∷ []) kvs

-- What the code copies is what it has.
copy_tags_lem : (tags : Dict String) → IsMap tags → copy_tags tags [] ≡ tags
copy_tags_lem tags h = copy_tags_from tags [] h (all_new tags)
  where
    all_new : (kvs : Dict String) → AreNew kvs []
    all_new [] = tt
    all_new (kv ∷ kvs) = (refl, all_new kvs)

populate_lem : (egg : DocEgg) → IsMap egg.tags → populate_doc_egg egg ≡ egg
populate_lem egg h = ap (λ x. record { bytes = egg.bytes; tags = x }) (copy_tags_lem egg.tags h)

module _ {W : Type 0} (stub : Stub W) (db : String) where
  -- A new document, or a change of one, with an empty collection, id, version or bytes is refused by
  -- the name of the first of these that is empty, and the database is not called. Any other is sent as
  -- it is, in the client's namespace, and the answer is the id and version of the reply where the
  -- status is OK, and the status where it is not. The tags have no key twice, as a map's.
  pub changes_lem :
      (collection : String) (at : DocIdAndVersion) (egg : DocEgg) (w : W)
      → IsMap egg.tags
      → (insert_doc stub db collection egg w
          ≡ unless_empty
              (("collection", str_eq collection "") ∷ ("bytes", str_eq egg.bytes "") ∷ [])
              w
              (answer (stub.rpc_insert_doc db collection egg w)))
        × (update_doc stub db collection at egg w
            ≡ unless_empty
                (("collection", str_eq collection "")
                  ∷ ("id", str_eq at.id "")
                  ∷ ("version", str_eq at.version "")
                  ∷ ("bytes", str_eq egg.bytes "")
                  ∷ [])
                w
                (answer (stub.rpc_update_doc db collection at egg w)))
  unfolding insert_doc update_doc
  changes_lem collection at egg w h =
      let same = populate_lem egg h in
      (rw (insert_doc, same) (ground arith), rw (update_doc, same) (ground arith))

  -- A search with an empty collection, id or tags is refused by the name of the first of these that is
  -- empty, and the database is not called. Any other is sent as it is, in the client's namespace, and
  -- the answer is the document of the reply where the status is OK, and the status where it is not. No
  -- tags, of the request or of the reply, have a key twice, as no map's do.
  pub finds_lem :
      (collection id : String) (tags : Dict String) (w : W)
      → IsMap tags
      → IsMap (stub.rpc_find_doc_by_id db collection id w).0.1.tags
      → IsMap (stub.rpc_find_doc db collection tags w).0.1.tags
      → (find_doc_by_id stub db collection id w
          ≡ unless_empty
              (("collection", str_eq collection "") ∷ ("id", str_eq id "") ∷ [])
              w
              (answer (stub.rpc_find_doc_by_id db collection id w)))
        × (find_doc_by_tags stub db collection tags w
            ≡ unless_empty
                (("collection", str_eq collection "") ∷ ("tags", is_empty tags) ∷ [])
                w
                (answer (stub.rpc_find_doc db collection tags w)))
  unfolding find_doc_by_id find_doc_by_tags
  finds_lem collection id tags w h l m =
      (rw (find_doc_by_id, copy_tags_lem _ l) (ground arith), by_tags tags h m)
    where
      by_tags :
          (tags : Dict String)
          → IsMap tags
          → IsMap (stub.rpc_find_doc db collection tags w).0.1.tags
          → find_doc_by_tags stub db collection tags w
            ≡ unless_empty
                (("collection", str_eq collection "") ∷ ("tags", is_empty tags) ∷ [])
                w
                (answer (stub.rpc_find_doc db collection tags w))
      by_tags [] h m = ground arith
      by_tags (t ∷ ts) h m =
          rw (find_doc_by_tags, copy_tags_lem (t ∷ ts) h, copy_tags_lem _ m) (ground arith)
