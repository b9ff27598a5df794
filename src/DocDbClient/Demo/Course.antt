-- ===== src/DocDbClient/Demo/Course.antt =====
-- What doc_db_demo.cc prints: a report of each call, up to the first that fails.
use moon_base.Base.{◌≡◌, sym, ◌∙◌, subst, ◌⊎◌, inl, inr, ◌++◌ as ◌⧺◌}
use moon_base.Absl.{StatusOr, ok}
use moon_base.DocDbClient.{
  Stub, DocIdAndVersion, Doc, insert_doc, update_doc, find_doc_by_id, find_doc_by_tags,
}
use moon_base.DocDbClient.Demo.{
  Console, print_doc_id_and_version, print_doc, main, tippy, tippy_egg, over_egg, find_inserted,
  update_found, find_updated,
}
use moon_base.DocDbClient.Demo.Reports.{
  Breaks, place_lines, doc_lines, print_doc_id_and_version_lem, print_doc_id_and_version-Breaks,
  print_doc_lem, print_doc-Breaks,
}
use moon_base.DocDbClient.Demo.Stages.{
  insert_doc-Settles, find_doc_by_tags-Settles, find_doc_by_id-Settles, update_doc-Settles, called,
  stage,
}

-- The program on the stub: the four reports, each of what the call before it allowed, or a break.
pub record IsReported {W : Type 0} (stub : Stub W) (v : Console W)
    (x : StatusOr (Unit {0}) × Console W) : Type 0 where
  pub inserted : DocIdAndVersion
  pub by_tags : Doc
  pub updated : DocIdAndVersion
  pub by_id : Doc
  pub after_insert : W
  pub after_find : W
  pub after_update : W
  pub after_all : W
  pub inserts : insert_doc stub "demo" "golf" tippy_egg v.world ≡ (ok inserted, after_insert)
  pub finds : find_doc_by_tags stub "demo" "golf" tippy after_insert ≡ (ok by_tags, after_find)
  pub updates :
      update_doc stub "demo" "golf"
        (record { id = by_tags.id; version = by_tags.version })
        over_egg
        after_find
      ≡ (ok updated, after_update)
  pub finds_again :
      find_doc_by_id stub "demo" "golf" updated.id after_update ≡ (ok by_id, after_all)
  pub ends : x ≡ (
    ok tt,
    record {
      world = after_all;
      printed =
          (((v.printed ⧺ place_lines "InsertDoc" inserted) ⧺ doc_lines "FindDocByTags" by_tags)
            ⧺ place_lines "UpdateDoc" updated)
          ⧺ doc_lines "FindDocById" by_id;
    },
  )

module _ {W : Type 0} (stub : Stub W) where
  inserting :
      (v : Console W)
      → Breaks (main stub v)
        ⊎ ((a : DocIdAndVersion) × (w : W) × (insert_doc stub "demo" "golf" tippy_egg v.world
              ≡ (ok a, w))
            × (main stub v
                ≡ find_inserted stub
                    (record { world = w; printed = v.printed ⧺ place_lines "InsertDoc" a })))
  unfolding main
  inserting v =
      stage (print_doc_id_and_version "InsertDoc") (place_lines "InsertDoc")
        (print_doc_id_and_version_lem "InsertDoc") (print_doc_id_and_version-Breaks "InsertDoc")
        (insert_doc stub "demo" "golf" tippy_egg) (λ _. find_inserted stub) v
        (insert_doc-Settles stub tippy_egg v.world)

  finding :
      (v : Console W)
      → Breaks (find_inserted stub v)
        ⊎ ((d : Doc) × (w : W) × (find_doc_by_tags stub "demo" "golf" tippy v.world ≡ (ok d, w))
            × (find_inserted stub v
                ≡ update_found stub
                    (ok d)
                    (record { world = w; printed = v.printed ⧺ doc_lines "FindDocByTags" d })))
  unfolding find_inserted
  finding v =
      stage (print_doc "FindDocByTags") (doc_lines "FindDocByTags") (print_doc_lem "FindDocByTags")
        (print_doc-Breaks "FindDocByTags") (find_doc_by_tags stub "demo" "golf" tippy)
        (update_found stub) v (find_doc_by_tags-Settles stub v.world)

  updating :
      (d : Doc) (v : Console W)
      → Breaks (update_found stub (ok d) v)
        ⊎ ((a : DocIdAndVersion) × (w : W) × (update_doc stub "demo" "golf"
                (record { id = d.id; version = d.version })
                over_egg
                v.world
              ≡ (ok a, w))
            × (update_found stub (ok d) v
                ≡ find_updated stub
                    (ok a)
                    (record { world = w; printed = v.printed ⧺ place_lines "UpdateDoc" a })))
  unfolding update_found
  updating d v =
      let at : DocIdAndVersion = record { id = d.id; version = d.version } in
      stage (print_doc_id_and_version "UpdateDoc") (place_lines "UpdateDoc")
        (print_doc_id_and_version_lem "UpdateDoc") (print_doc_id_and_version-Breaks "UpdateDoc")
        (update_doc stub "demo" "golf" at over_egg) (find_updated stub) v
        (update_doc-Settles stub at over_egg v.world)

  finding_again :
      (a : DocIdAndVersion) (v : Console W)
      → Breaks (find_updated stub (ok a) v)
        ⊎ ((d : Doc) × (w : W) × (find_doc_by_id stub "demo" "golf" a.id v.world ≡ (ok d, w))
            × (find_updated stub (ok a) v
                ≡ (ok tt, record { world = w; printed = v.printed ⧺ doc_lines "FindDocById" d })))
  unfolding find_updated
  finding_again a v =
      elim (called (find_doc_by_id stub "demo" "golf" a.id) (print_doc "FindDocById") v
        (print_doc-Breaks "FindDocById") (find_doc_by_id-Settles stub a.id v.world)) [
          | inl b ↦ inl b
          | inr (d, w, e, same) ↦ inr (d, w, e, same ∙ print_doc_lem "FindDocById" d _)
        ]

  carry : {x y : StatusOr (Unit {0}) × Console W} {P : Type 0} → x ≡ y → Breaks y ⊎ P → Breaks x ⊎ P
  carry e (inl b) = inl (subst Breaks (sym e) b)
  carry e (inr p) = inr p

-- Whatever the database answers, the program either ends well, having printed a report of each of its
-- four calls, the later ones about the document that the earlier ones found, or it ends in undefined
-- behaviour right after it has printed the status of a call that failed.
pub main_lem :
    {W : Type 0} (stub : Stub W) (v : Console W)
    → Breaks (main stub v) ⊎ IsReported stub v (main stub v)
main_lem stub v = elim (inserting stub v) [
  | inl b ↦ inl b
  | inr (a, w₁, inserts, e₁) ↦ carry stub e₁ (elim (finding stub _) [
    | inl b ↦ inl b
    | inr (d, w₂, finds, e₂) ↦ carry stub e₂ (elim (updating stub d _) [
      | inl b ↦ inl b
      | inr (a', w₃, updates, e₃) ↦ carry stub e₃ (elim (finding_again stub a' _) [
        | inl b ↦ inl b
        | inr (d', w₄, again, e₄) ↦ inr (record {
          inserted = a;
          by_tags = d;
          updated = a';
          by_id = d';
          after_insert = w₁;
          after_find = w₂;
          after_update = w₃;
          after_all = w₄;
          inserts = inserts;
          finds = finds;
          updates = updates;
          finds_again = again;
          ends = e₁ ∙ e₂ ∙ e₃ ∙ e₄;
        })
      ])
    ])
  ])
]
