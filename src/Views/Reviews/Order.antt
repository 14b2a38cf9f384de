-- ===== src/Views/Reviews/Order.antt =====
-- What `GET /reviews` lists first.
use mathlib.Core.List.{Perm}
use multimodal_content_moder.Common.{
  ℕ, ◌≡◌, refl, min, String, str_eq, true, false, some, List, ◌++◌, length, take, drop, length-take,
  select_where, arith,
}
use multimodal_content_moder.Common.Sorting.{
  order_by, IsSorted, order_by-perm, order_by-IsSorted, take-drop,
}
use multimodal_content_moder.Schema.{ReviewRow, Db}
use multimodal_content_moder.Review.Claims.{release_expired_claims}
use multimodal_content_moder.Views.Reviews.{
  JoinedReview, is_before, by_priority, join_all, has_status, select_reviews, out_rows,
  list_reviews,
}

is_before_total : (a b : ReviewRow) → is_before a b ≡ false → is_before b a ≡ true
is_before_total a b h = ground arith

is_before_trans :
    (a b c : ReviewRow) → is_before a b ≡ true → is_before b c ≡ true → is_before a c ≡ true
is_before_trans a b c h k = ground arith

module _ {F : Type 0} where
  -- `GET /reviews?status=...&limit=...` lists the head of a worklist: the rows that have the status
  -- after the release of expired claims, in the order of priority and then of age, are the listed
  -- ones followed by the others, and as many are listed as `limit` admits.
  pub lists_worklist_head :
      (now : ℕ) (signed_url : String → String) (status : String) (limit : ℕ) (db : Db F)
      → str_eq status "" ≡ false
      → let released = (release_expired_claims now db).0 in
        (listed others : List (JoinedReview F)) × (list_reviews now signed_url
            (some status)
            limit
            db
          ≡ (out_rows signed_url listed, released))
        × Perm
            (listed ++ others)
            (select_where (has_status status) (join_all released.review_queue released))
        × IsSorted by_priority (listed ++ others)
        × (length listed ≡ min limit (length (listed ++ others)))
  unfolding list_reviews select_reviews
  lists_worklist_head now signed_url status limit db named =
      let released = (release_expired_claims now db).0 in
      let found = select_where (has_status status) (join_all released.review_queue released) in
      let rows = order_by by_priority found in
      let whole = take-drop limit rows in
      let sorted =
        order_by-IsSorted by_priority (λ a b. is_before_total a.review b.review)
          (λ a b c. is_before_trans a.review b.review c.review) found in
      (
        take limit rows,
        drop limit rows,
        rw named refl,
        rw whole (order_by-perm by_priority found),
        rw whole sorted,
        rw whole (length-take limit rows),
      )
