-- ===== src/Views/Decisions/Agreement.antt =====
-- The two views of decisions agree.
use multimodal_content_moder.Common.{
  ℕ, ◌==◌, ==_refl, ◌≡◌, refl, String, false, Option-cases, inl, inr, some, List, [], ◌∷◌, All,
  find_where,
}
use multimodal_content_moder.Common.Exec.{ok}
use multimodal_content_moder.Common.Sorting.{order_by, All-order_by, All-take}
use multimodal_content_moder.Schema.{DecisionRow, ContentItem, Db}
use multimodal_content_moder.Views.Decisions.{
  DecisionOut, JoinedDecision, decision_out, answer_of, item_of, join_decisions, newest_first,
  select_decisions, decisions_out, list_decisions, get_decision,
}

module _ {F : Type 0} where
  -- the primary key of `decisions`
  abbrev pub HaveDistinctIds : List (DecisionRow F) → Type 0
  HaveDistinctIds [] = Unit
  HaveDistinctIds (d ∷ ds) = All (λ e. (d.id == e.id) ≡ false) ds × HaveDistinctIds ds

  -- what the row's id finds
  abbrev IsFound : List (DecisionRow F) → List ContentItem → JoinedDecision F → Type 0
  IsFound ds items j =
      (find_where (λ d. d.id == j.row.id) ds ≡ some j.row) × (item_of j.row items ≡ some j.item)

  still-IsFound :
      (d : DecisionRow F) (ds : List (DecisionRow F)) (items : List ContentItem)
      (j : JoinedDecision F)
      → (d.id == j.row.id) ≡ false
      → IsFound ds items j
      → IsFound (d ∷ ds) items j
  unfolding find_where
  still-IsFound d ds items j other (found, item) = (rw other found, item)

  -- the first row of its id
  first-IsFound :
      (d : DecisionRow F) (ds : List (DecisionRow F)) (items : List ContentItem) (c : ContentItem)
      → item_of d items ≡ some c
      → IsFound (d ∷ ds) items (record { row = d; item = c })
  unfolding find_where
  first-IsFound d ds items c there = (rw (==_refl d.id) refl, there)

  ids-join_decisions :
      (n : ℕ) (ds : List (DecisionRow F)) (items : List ContentItem)
      → All (λ e. (n == e.id) ≡ false) ds
      → All (λ j. (n == j.row.id) ≡ false) (join_decisions ds items)
  unfolding join_decisions
  ids-join_decisions n [] items distinct = tt
  ids-join_decisions n (d ∷ ds) items (other, distinct) = elim (Option-cases (item_of d items)) [
    | inl missing ↦ rw (missing, join_decisions) (ids-join_decisions n ds items distinct)
    | inr (c, there) ↦ rw (there, join_decisions) (other, ids-join_decisions n ds items distinct)
  ]

  All-still-IsFound :
      (d : DecisionRow F) (ds : List (DecisionRow F)) (items : List ContentItem)
      (js : List (JoinedDecision F))
      → All (λ j. (d.id == j.row.id) ≡ false) js
      → All (IsFound ds items) js
      → All (IsFound (d ∷ ds) items) js
  All-still-IsFound d ds items [] other found = tt
  All-still-IsFound d ds items (j ∷ js) (o, other) (f, found) =
      (still-IsFound d ds items j o f, All-still-IsFound d ds items js other found)

  join_decisions-IsFound :
      (ds : List (DecisionRow F)) (items : List ContentItem)
      → HaveDistinctIds ds
      → All (IsFound ds items) (join_decisions ds items)
  unfolding join_decisions
  join_decisions-IsFound [] items distinct = tt
  join_decisions-IsFound (d ∷ ds) items (other, distinct) =
      let rest =
        All-still-IsFound d ds items (join_decisions ds items)
          (ids-join_decisions d.id ds items other) (join_decisions-IsFound ds items distinct) in
      elim (Option-cases (item_of d items)) [
        | inl missing ↦ rw (missing, join_decisions) rest
        | inr (c, there) ↦ rw (there, join_decisions) (first-IsFound d ds items c there, rest)
      ]

  -- what `get_decision` answers for an item of the listing
  abbrev pub IsAnswered : (String → String) → Db F → DecisionOut F → Type 0
  IsAnswered signed_url db out = get_decision signed_url out.id db ≡ ok out

  out-IsAnswered :
      (signed_url : String → String) (db : Db F) (js : List (JoinedDecision F))
      → All (IsFound db.decisions db.content_items) js
      → All (IsAnswered signed_url db) (decisions_out signed_url js)
  unfolding decisions_out decision_out answer_of get_decision
  out-IsAnswered signed_url db [] found = tt
  out-IsAnswered signed_url db (j ∷ js) ((row, item), found) =
      (rw (row, item) refl, out-IsAnswered signed_url db js found)

  -- Where decisions have distinct ids, `GET /decisions/{id}` answers every item of `GET /decisions`,
  -- whatever its limit, just as it is listed.
  pub list_decisions-IsAnswered :
      (signed_url : String → String) (limit : ℕ) (db : Db F)
      → HaveDistinctIds db.decisions
      → All (IsAnswered signed_url db) (list_decisions signed_url limit db)
  unfolding list_decisions select_decisions
  list_decisions-IsAnswered signed_url limit db distinct =
      let joined = join_decisions db.decisions db.content_items in
      out-IsAnswered signed_url db (select_decisions limit db) (
        All-take (IsFound db.decisions db.content_items) limit (order_by newest_first joined) (
          All-order_by newest_first (IsFound db.decisions db.content_items) joined
            (join_decisions-IsFound db.decisions db.content_items distinct)))
