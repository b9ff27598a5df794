-- ===== src/DocDbClient/Demo/Stages.antt =====
-- A call of doc_db_demo.cc, the report of it, and what comes next.
use moon_base.Base.{
  String, ◌≡◌, refl, ap, sym, ◌∙◌, subst, ◌⊎◌, inl, inr, List, ◌++◌ as ◌⧺◌, Bool-cases, str_eq,
  if◌then◌else◌,
}
use moon_base.Absl.{Status, StatusOr, ok, err, fault}
use moon_base.Golf.GameStore.{Action, ◌>>=◌}
use moon_base.DocDbClient.{
  Stub, DocEgg, DocIdAndVersion, insert_doc, update_doc, find_doc_by_id, find_doc_by_tags,
  is_ok_code,
}
use moon_base.DocDbClient.Demo.{Console, calls, settled, tippy}
use moon_base.DocDbClient.Demo.Reports.{Breaks, after}

-- A call of the client ends in a value or a status.
abbrev pub Settles : {W A : Type 0} → StatusOr A × W → Type 0
Settles {W} {A} x =
    ((a : A) × (w : W) × (x ≡ (ok a, w))) ⊎ ((e : Status) × (w : W) × (x ≡ (err e, w)))

answer-Settles :
    {W A : Type 0} (status : Status) (reply : A) (w : W)
    → Settles ((if is_ok_code status.code then ok reply else err status), w)
answer-Settles status reply w = elim (Bool-cases (is_ok_code status.code)) [
  | inl e ↦ inl (reply, w, rw e refl)
  | inr e ↦ inr (status, w, rw e refl)
]

module _ {W : Type 0} (stub : Stub W) where
  pub insert_doc-Settles : (egg : DocEgg) (w : W) → Settles (insert_doc stub "demo" "golf" egg w)
  unfolding insert_doc
  insert_doc-Settles egg w = elim (Bool-cases (str_eq egg.bytes "")) [
    | inl e ↦ rw e (inr (_, w, refl))
    | inr e ↦ rw e (answer-Settles _ _ _)
  ]

  pub find_doc_by_tags-Settles : (w : W) → Settles (find_doc_by_tags stub "demo" "golf" tippy w)
  unfolding find_doc_by_tags
  find_doc_by_tags-Settles w = answer-Settles _ _ _

  pub find_doc_by_id-Settles :
      (id : String) (w : W) → Settles (find_doc_by_id stub "demo" "golf" id w)
  unfolding find_doc_by_id
  find_doc_by_id-Settles id w = elim (Bool-cases (str_eq id "")) [
    | inl e ↦ rw e (inr (_, w, refl))
    | inr e ↦ rw e (answer-Settles _ _ _)
  ]

  pub update_doc-Settles :
      (at : DocIdAndVersion) (egg : DocEgg) (w : W)
      → Settles (update_doc stub "demo" "golf" at egg w)
  unfolding update_doc
  update_doc-Settles at egg w = elim (Bool-cases (str_eq at.id "")) [
    | inl e ↦ rw e (inr (_, w, refl))
    | inr e ↦ elim (Bool-cases (str_eq at.version "")) [
      | inl f ↦ rw (e, f) (inr (_, w, refl))
      | inr f ↦ elim (Bool-cases (str_eq egg.bytes "")) [
        | inl l ↦ rw (e, f, l) (inr (_, w, refl))
        | inr l ↦ rw (e, f, l) (answer-Settles _ _ _)
      ]
    ]
  ]

>>=-Breaks :
    {W : Type 0} (x : StatusOr (Unit {0}) × Console W)
    (k : Unit {0} → Action (Console W) (Unit {0})) (v : Console W)
    → Breaks x
    → Breaks (((λ _. x) >>= k) v)
>>=-Breaks (ok a, c) k v b = cc
>>=-Breaks (err e, c) k v b = cc
>>=-Breaks (fault f, c) k v b = b

-- A call, and what the program does with its result, which breaks where the call failed.
pub called :
    {W A : Type 0} (call : W → StatusOr A × W) (body : StatusOr A → Action (Console W) (Unit {0}))
    (v : Console W)
    → ((e : Status) (c : Console W) → Breaks (body (err e) c))
    → Settles (call v.world)
    → Breaks ((calls call >>= body) v)
      ⊎ ((a : A) × (w : W) × (call v.world ≡ (ok a, w))
          × ((calls call >>= body) v ≡ body (ok a) (record { world = w; printed = v.printed })))
called call body v breaks (inl (a, w, e)) =
    inr (a, w, e, ap (λ x. ((λ _. settled v.printed x) >>= body) v) e)
called call body v breaks (inr (e, w, f)) = inl (
    subst Breaks (sym (ap (λ x. ((λ _. settled v.printed x) >>= body) v) f))
      (breaks e (record { world = w; printed = v.printed })))

module _ {W A : Type 0} (print : StatusOr A → Action (Console W) (Unit {0}))
    (lines : A → List String)
    (reports : (a : A) (v : Console W) → print (ok a) v ≡ (ok tt, after v (lines a)))
    (breaks : (e : Status) (v : Console W) → Breaks (print (err e) v)) where
  -- A call, its report, and what the program does next.
  pub stage :
      (call : W → StatusOr A × W) (next : StatusOr A → Action (Console W) (Unit {0}))
      (v : Console W)
      → Settles (call v.world)
      → Breaks ((calls call >>= λ r. print r >>= λ _. next r) v)
        ⊎ ((a : A) × (w : W) × (call v.world ≡ (ok a, w))
            × ((calls call >>= λ r. print r >>= λ _. next r) v
                ≡ next (ok a) (record { world = w; printed = v.printed ⧺ lines a })))
  stage call next v s =
      elim (called call (λ r. print r >>= λ _. next r) v
        (λ e c. >>=-Breaks (print (err e) c) (λ _. next (err e)) v (breaks e c)) s) [
          | inl b ↦ inl b
          | inr (a, w, e, same) ↦ inr (
            a,
            w,
            e,
            same
                ∙ ap (λ x. ((λ _. x) >>= λ _. next (ok a)) v)
                    (reports a (record { world = w; printed = v.printed })),
          )
        ]
