-- ===== src/Views/Reviews.antt =====
-- apps/api/app/routes/review.py: `list_reviews`, and the rows that it answers. The signed link of an
-- object is an argument.
pub mod Order
use mathlib.Core.List.{Perm}
use multimodal_content_moder.Common.{
  ℕ, ◌==◌, ◌≡◌, ltb, leb, min, String, str_eq, Bool, true, ◌&&◌, ◌||◌, not, Option, none, some,
  List, [], ◌∷◌, ◌++◌, length, take, drop, find_where, select_where, if◌then◌else◌,
}
use multimodal_content_moder.Common.Exec.{Result}
use multimodal_content_moder.Common.Sorting.{order_by, IsSorted}
use multimodal_content_moder.Policy.{Decision}
use multimodal_content_moder.Envelope.{Text, VisionSignals, LlmSignals}
use multimodal_content_moder.Schema.{ReviewRow, ContentItem, DecisionRow, Db}
use multimodal_content_moder.Review.Claims.{release_expired_claims}
use multimodal_content_moder.Review.Handlers.{review_status_text}

-- a row of the three tables
pub record JoinedReview (F : Type 0) : Type 0 where
  pub review : ReviewRow
  pub decision : DecisionRow F
  pub item : ContentItem

-- `ReviewItemOut`; `review` holds the ten columns of the queue
pub record ReviewItemOut (F : Type 0) : Type 0 where
  pub review : ReviewRow
  pub decision : Decision
  pub confidence : F
  pub reasons : List String
  pub vision_signals : VisionSignals F
  pub llm_signals : LlmSignals F
  pub caption : Text
  pub image_url : String
  pub content_type : String

-- `ORDER BY rq.priority ASC, rq.created_at ASC`
abbrev pub is_before : ReviewRow → ReviewRow → Bool
is_before a b =
    ltb a.priority b.priority || (a.priority == b.priority && leb a.created_at b.created_at)

module _ {F : Type 0} where
  abbrev pub by_priority : JoinedReview F → JoinedReview F → Bool
  by_priority a b = is_before a.review b.review

  -- `ORDER BY rq.created_at DESC`
  abbrev pub by_newest : JoinedReview F → JoinedReview F → Bool
  by_newest a b = leb b.review.created_at a.review.created_at

  unfoldable pub joined : ReviewRow → Db F → Option (JoinedReview F)
  joined r db = elim (find_where (λ d. d.id == r.decision_id) db.decisions) [
    | none ↦ none
    | some d ↦ elim (find_where (λ c. c.id == r.content_id) db.content_items) [
      | none ↦ none
      | some c ↦ some (record { review = r; decision = d; item = c })
    ]
  ]

  abbrev cons_some : Option (JoinedReview F) → List (JoinedReview F) → List (JoinedReview F)
  cons_some none rest = rest
  cons_some (some j) rest = j ∷ rest

  -- the two JOINs
  unfoldable pub join_all : List ReviewRow → Db F → List (JoinedReview F)
  unfolding joined
  join_all [] db = []
  join_all (r ∷ rs) db = cons_some (joined r db) (join_all rs db)

  abbrev pub has_status : String → JoinedReview F → Bool
  has_status status j = str_eq (review_status_text j.review.status) status

  -- the SELECT with a status, and the one without
  unfoldable pub select_reviews : String → ℕ → Db F → List (JoinedReview F)
  unfolding order_by join_all
  select_reviews status limit db =
      take limit
        (order_by by_priority (select_where (has_status status) (join_all db.review_queue db)))

  unfoldable pub select_all_reviews : ℕ → Db F → List (JoinedReview F)
  unfolding order_by join_all
  select_all_reviews limit db = take limit (order_by by_newest (join_all db.review_queue db))

  -- `_row_to_review`
  unfoldable pub row_to_review : (String → String) → JoinedReview F → ReviewItemOut F
  row_to_review signed_url j = record {
    review = j.review;
    decision = j.decision.decision;
    confidence = j.decision.envelope.confidence;
    reasons = j.decision.envelope.reasons;
    vision_signals = j.decision.envelope.vision;
    llm_signals = j.decision.envelope.llm;
    caption = j.item.caption;
    image_url = signed_url j.item.object_key;
    content_type = j.item.content_type;
  }

  unfoldable pub out_rows : (String → String) → List (JoinedReview F) → List (ReviewItemOut F)
  unfolding row_to_review
  out_rows signed_url [] = []
  out_rows signed_url (j ∷ js) = row_to_review signed_url j ∷ out_rows signed_url js

  -- the rows behind `if status:`
  abbrev pub select_for : Option String → ℕ → Db F → List (JoinedReview F)
  select_for none limit db = select_all_reviews limit db
  select_for (some status) limit db =
      if str_eq status "" then select_all_reviews limit db else select_reviews status limit db

  -- `list_reviews`: the answer, and the database after the release of expired claims
  unfoldable pub list_reviews :
      ℕ → (String → String) → Option String → ℕ → Db F → List (ReviewItemOut F) × Db F
  unfolding select_reviews select_all_reviews out_rows release_expired_claims
  list_reviews now signed_url status limit db =
      let released = (release_expired_claims now db).0 in
      (out_rows signed_url (select_for status limit released), released)
