-- ===== src/Views/Decisions.antt =====
-- apps/api/app/routes/review.py: `list_decisions` and `get_decision`. The signed link of an object is
-- an argument.
pub mod Agreement
use multimodal_content_moder.Common.{
  ℕ, ◌==◌, leb, String, Bool, Option, none, some, List, [], ◌∷◌, take, find_where, if◌then◌else◌,
}
use multimodal_content_moder.Common.Exec.{Result, ok, err}
use multimodal_content_moder.Common.Sorting.{order_by}
use multimodal_content_moder.Policy.{Decision}
use multimodal_content_moder.Envelope.{Text, VisionSignals, LlmSignals}
use multimodal_content_moder.Schema.{ContentItem, DecisionRow, Db}
use multimodal_content_moder.Http.{HttpError}

pub record DecisionOut (F : Type 0) : Type 0 where
  pub id : ℕ
  pub job_id : ℕ
  pub content_id : ℕ
  pub content_hash : String
  pub decision : Decision
  pub confidence : F
  pub reasons : List String
  pub vision_signals : VisionSignals F
  pub llm_signals : LlmSignals F
  pub policy_version : String
  pub pipeline_version : String
  pub latency_ms : ℕ
  pub needs_human_review : Bool
  pub created_at : ℕ
  pub caption : Text
  pub image_url : String

-- a row of the two tables
pub record JoinedDecision (F : Type 0) : Type 0 where
  pub row : DecisionRow F
  pub item : ContentItem

abbrev pub decision_not_found : HttpError
decision_not_found = record { status_code = 404; detail = "Decision not found" }

module _ {F : Type 0} where
  -- an item of `list_decisions`
  unfoldable pub decision_out : (String → String) → JoinedDecision F → DecisionOut F
  decision_out signed_url j = record {
    id = j.row.id;
    job_id = j.row.job_id;
    content_id = j.row.content_id;
    content_hash = j.row.envelope.content_hash;
    decision = j.row.decision;
    confidence = j.row.envelope.confidence;
    reasons = j.row.envelope.reasons;
    vision_signals = j.row.envelope.vision;
    llm_signals = j.row.envelope.llm;
    policy_version = j.row.envelope.policy_version;
    pipeline_version = j.row.envelope.pipeline_version;
    latency_ms = j.row.latency_ms;
    needs_human_review = j.row.needs_human_review;
    created_at = j.row.created_at;
    caption = j.item.caption;
    image_url = signed_url j.item.object_key;
  }

  -- `JOIN content_items c ON c.id = d.content_id`
  unfoldable pub item_of : DecisionRow F → List ContentItem → Option ContentItem
  item_of d items = find_where (λ c. c.id == d.content_id) items

  abbrev pub cons_joined :
      DecisionRow F → Option ContentItem → List (JoinedDecision F) → List (JoinedDecision F)
  cons_joined d none rest = rest
  cons_joined d (some c) rest = record { row = d; item = c } ∷ rest

  unfoldable pub join_decisions : List (DecisionRow F) → List ContentItem → List (JoinedDecision F)
  join_decisions [] items = []
  join_decisions (d ∷ ds) items = cons_joined d (item_of d items) (join_decisions ds items)

  -- `ORDER BY d.created_at DESC LIMIT $1`
  abbrev pub newest_first : JoinedDecision F → JoinedDecision F → Bool
  newest_first a b = leb b.row.created_at a.row.created_at

  unfoldable pub select_decisions : ℕ → Db F → List (JoinedDecision F)
  unfolding join_decisions
  select_decisions limit db =
      take limit (order_by newest_first (join_decisions db.decisions db.content_items))

  unfoldable pub decisions_out : (String → String) → List (JoinedDecision F) → List (DecisionOut F)
  unfolding decision_out
  decisions_out signed_url [] = []
  decisions_out signed_url (j ∷ js) = decision_out signed_url j ∷ decisions_out signed_url js

  unfoldable pub list_decisions : (String → String) → ℕ → Db F → List (DecisionOut F)
  unfolding select_decisions decisions_out
  list_decisions signed_url limit db = decisions_out signed_url (select_decisions limit db)

  -- the answer of `get_decision`, which writes the construction out again
  unfoldable pub answer_of : (String → String) → JoinedDecision F → DecisionOut F
  answer_of signed_url r = record {
    id = r.row.id;
    job_id = r.row.job_id;
    content_id = r.row.content_id;
    content_hash = r.row.envelope.content_hash;
    decision = r.row.decision;
    confidence = r.row.envelope.confidence;
    reasons = r.row.envelope.reasons;
    vision_signals = r.row.envelope.vision;
    llm_signals = r.row.envelope.llm;
    policy_version = r.row.envelope.policy_version;
    pipeline_version = r.row.envelope.pipeline_version;
    latency_ms = r.row.latency_ms;
    needs_human_review = r.row.needs_human_review;
    created_at = r.row.created_at;
    caption = r.item.caption;
    image_url = signed_url r.item.object_key;
  }

  abbrev pub answer_for :
      (String → String) → DecisionRow F → Option ContentItem → Result HttpError (DecisionOut F)
  answer_for signed_url d none = err decision_not_found
  answer_for signed_url d (some c) = ok (answer_of signed_url (record { row = d; item = c }))

  abbrev pub answer_row :
      (String → String)
      → List ContentItem
      → Option (DecisionRow F)
      → Result HttpError (DecisionOut F)
  answer_row signed_url items none = err decision_not_found
  answer_row signed_url items (some d) = answer_for signed_url d (item_of d items)

  unfoldable pub get_decision : (String → String) → ℕ → Db F → Result HttpError (DecisionOut F)
  unfolding item_of answer_of
  get_decision signed_url decision_id db =
      answer_row signed_url db.content_items (find_where (λ d. d.id == decision_id) db.decisions)
