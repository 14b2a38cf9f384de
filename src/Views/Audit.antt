-- ===== src/Views/Audit.antt =====
-- apps/api/app/routes/audit.py: the query that `list_audit` builds, with numbered places for its
-- arguments, and what Postgres answers to it. A row has the columns of `AuditEventOut`; the JSON of
-- its detail is the value.
pub mod Filter
use multimodal_content_moder.Common.{
  ℕ, zero, suc, ◌-◌, ◌==◌, leb, String, str_eq, Bool, true, ◌&&◌, Option, none, some, List, [], ◌∷◌,
  ◌++◌, length, take, if◌then◌else◌,
}
use multimodal_content_moder.Common.Sorting.{order_by}
use multimodal_content_moder.Schema.{AuditEvent}

-- a row of `audit_log`, with its id and its time
pub record AuditRow (F : Type 0) : Type 0 where
  pub id : ℕ
  pub event : AuditEvent F
  pub created_at : ℕ

pub data Column : Type 0 where
  entity_type entity_id actor : Column

-- a value of `args`
pub data Argument : Type 0 where
  text : String → Argument
  uuid : ℕ → Argument
  int : ℕ → Argument

-- `column = $place`
pub record Clause : Type 0 where
  pub column : Column
  pub place : ℕ

-- `clauses` and `args`
pub record Query : Type 0 where
  pub clauses : List Clause
  pub args : List Argument

-- `args.append(value)`, `clauses.append(f"column = ${len(args)}")`
abbrev pub add_clause : Column → Argument → Query → Query
add_clause column value q = record {
  clauses = q.clauses ++ (record { column = column; place = length (q.args ++ (value ∷ [])) } ∷ []);
  args = q.args ++ (value ∷ []);
}

-- `if entity_type:`, `if actor:`
abbrev pub add_text : Column → Option String → Query → Query
add_text column none q = q
add_text column (some value) q = if str_eq value "" then q else add_clause column (text value) q

-- `if entity_id is not None:`
abbrev pub add_uuid : Column → Option ℕ → Query → Query
add_uuid column none q = q
add_uuid column (some value) q = add_clause column (uuid value) q

-- the clauses of the WHERE, and the arguments with the limit last
unfoldable pub build_query : Option String → Option ℕ → Option String → ℕ → Query
build_query by_type by_id by_actor limit =
    let start : Query = record { clauses = []; args = [] } in
    let q =
      add_text actor by_actor (add_uuid entity_id by_id (add_text entity_type by_type start)) in
    record q { args = q.args ++ (int limit ∷ []) }

-- `$n`, counted from 1
unfoldable pub argument_at : ℕ → List Argument → Option Argument
argument_at n [] = none
argument_at zero (a ∷ args) = none
argument_at (suc zero) (a ∷ args) = some a
argument_at (suc (suc n)) (a ∷ args) = argument_at (suc n) args

abbrev pub both : Option Bool → Option Bool → Option Bool
both none _ = none
both (some a) none = none
both (some a) (some b) = some (a && b)

module _ {F : Type 0} where
  -- `column = value`; `none` is the error of a value of another type
  unfoldable pub holds : AuditRow F → Column → Option Argument → Option Bool
  holds row entity_type (some (text value)) = some (str_eq row.event.entity_type value)
  holds row entity_id (some (uuid value)) = some (row.event.entity_id == value)
  holds row actor (some (text value)) = some (str_eq row.event.actor value)
  holds row _ _ = none

  -- the clauses, joined by AND
  unfoldable pub passes : List Clause → List Argument → AuditRow F → Option Bool
  unfolding holds argument_at
  passes [] args row = some true
  passes (c ∷ clauses) args row =
      both (holds row c.column (argument_at c.place args)) (passes clauses args row)

  abbrev pub keep_row :
      AuditRow F → Option Bool → Option (List (AuditRow F)) → Option (List (AuditRow F))
  keep_row row none rest = none
  keep_row row (some passed) none = none
  keep_row row (some passed) (some rows) = some (if passed then row ∷ rows else rows)

  unfoldable pub where_rows :
      List Clause → List Argument → List (AuditRow F) → Option (List (AuditRow F))
  unfolding passes
  where_rows clauses args [] = some []
  where_rows clauses args (row ∷ rows) =
      keep_row row (passes clauses args row) (where_rows clauses args rows)

  abbrev pub by_newest : AuditRow F → AuditRow F → Bool
  by_newest a b = leb b.created_at a.created_at

  -- `LIMIT $n`
  abbrev pub limit_rows : Option Argument → Option (List (AuditRow F)) → Option (List (AuditRow F))
  limit_rows (some (int n)) (some rows) = some (take n rows)
  limit_rows _ _ = none

  abbrev pub in_order : Option (List (AuditRow F)) → Option (List (AuditRow F))
  in_order none = none
  in_order (some rows) = some (order_by by_newest rows)

  -- `conn.fetch(query, *args)`
  unfoldable pub run_query : Query → List (AuditRow F) → Option (List (AuditRow F))
  unfolding where_rows order_by argument_at
  run_query q rows =
      limit_rows (argument_at (length q.args) q.args) (in_order (where_rows q.clauses q.args rows))

  -- `list_audit`
  unfoldable pub list_audit :
      Option String → Option ℕ → Option String → ℕ → List (AuditRow F) → Option (List (AuditRow F))
  unfolding build_query run_query
  list_audit by_type by_id by_actor limit rows =
      run_query (build_query by_type by_id by_actor limit) rows
