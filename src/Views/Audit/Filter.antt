-- ===== src/Views/Audit/Filter.antt =====
-- What the built query means.
use multimodal_content_moder.Common.{
  ℕ, ◌≡◌, refl, ◌==◌, String, str_eq, Bool, true, ◌&&◌, ◌||◌, Option, none, some, List, [], ◌∷◌,
  ◌++◌, length, take, select_where, arith,
}
use multimodal_content_moder.Common.Sorting.{order_by}
use multimodal_content_moder.Views.Audit.{
  AuditRow, Argument, int, Query, build_query, argument_at, holds, passes, where_rows, by_newest,
  run_query, list_audit,
}

-- what a parameter of the request admits: everything, where it is missing or empty
abbrev pub admits_text : Option String → String → Bool
admits_text none s = true
admits_text (some wanted) s = str_eq wanted "" || str_eq s wanted

abbrev pub admits_id : Option ℕ → ℕ → Bool
admits_id none n = true
admits_id (some wanted) n = n == wanted

last_argument :
    (args : List Argument) (a : Argument)
    → argument_at (length (args ++ (a ∷ []))) (args ++ (a ∷ [])) ≡ some a
unfolding argument_at
last_argument [] a = refl
last_argument (b ∷ []) a = refl
last_argument (b ∷ c ∷ args) a = last_argument (c ∷ args) a

limit_place :
    (by_type : Option String) (by_id : Option ℕ) (by_actor : Option String) (limit : ℕ)
    → let q = build_query by_type by_id by_actor limit in
      argument_at (length q.args) q.args ≡ some (int limit)
unfolding build_query
limit_place by_type by_id by_actor limit = last_argument _ (int limit)

module _ {F : Type 0} where
  abbrev pub is_wanted : Option String → Option ℕ → Option String → AuditRow F → Bool
  is_wanted by_type by_id by_actor row =
      admits_text by_type row.event.entity_type
      && admits_id by_id row.event.entity_id
      && admits_text by_actor row.event.actor

  passes-build_query :
      (by_type : Option String) (by_id : Option ℕ) (by_actor : Option String) (limit : ℕ)
      (row : AuditRow F)
      → let q = build_query by_type by_id by_actor limit in
        passes q.clauses q.args row ≡ some (is_wanted by_type by_id by_actor row)
  unfolding build_query passes holds argument_at
  passes-build_query none none none limit row = ground arith
  passes-build_query (some t) none none limit row = ground arith
  passes-build_query none (some i) none limit row = ground arith
  passes-build_query (some t) (some i) none limit row = ground arith
  passes-build_query none none (some a) limit row = ground arith
  passes-build_query (some t) none (some a) limit row = ground arith
  passes-build_query none (some i) (some a) limit row = ground arith
  passes-build_query (some t) (some i) (some a) limit row = ground arith

  where_rows-eq :
      (q : Query) (test : AuditRow F → Bool) (rows : List (AuditRow F))
      → ((row : AuditRow F) → passes q.clauses q.args row ≡ some (test row))
      → where_rows q.clauses q.args rows ≡ some (select_where test rows)
  unfolding where_rows select_where
  where_rows-eq q test [] h = refl
  where_rows-eq q test (row ∷ rows) h = rw (h row, where_rows-eq q test rows h) refl

  -- The query that `list_audit` builds runs without an error, whichever filters are given, and
  -- answers the newest `limit` of the rows that every given filter admits.
  pub list_audit-eq-filter :
      (by_type : Option String) (by_id : Option ℕ) (by_actor : Option String) (limit : ℕ)
      (rows : List (AuditRow F))
      → list_audit by_type by_id by_actor limit rows
        ≡ some
            (take limit (order_by by_newest (select_where (is_wanted by_type by_id by_actor) rows)))
  unfolding list_audit run_query
  list_audit-eq-filter by_type by_id by_actor limit rows =
      let q = build_query by_type by_id by_actor limit in
      let found =
        where_rows-eq q (is_wanted by_type by_id by_actor) rows
          (passes-build_query by_type by_id by_actor limit) in
      rw (limit_place by_type by_id by_actor limit, found) refl
