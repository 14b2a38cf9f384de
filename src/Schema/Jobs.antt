-- ===== src/Schema/Jobs.antt =====
-- Reading a job's row after an `UPDATE jobs ... WHERE id = $1`.
use mathlib.Core.Option
use multimodal_content_moder.Common.{
  ℕ, ◌==◌, ◌≡◌, Bool, ◌&&◌, Option, List, [], ◌∷◌, find_where, update_where, arith, if◌then◌else◌,
}
use multimodal_content_moder.Schema.{Job}

abbrev pub job_in : ℕ → List Job → Option Job
job_in k = find_where (λ j. j.id == k)

-- One row is changed, the others are as they were.
pub job_in-update :
    (i k : ℕ) (change : Job → Job) (js : List Job)
    → ((j : Job) → (change j).id ≡ j.id)
    → job_in k (update_where (λ j. j.id == i) change js)
      ≡ (if k == i then Option.map change (job_in k js) else job_in k js)
unfolding find_where update_where
job_in-update i k change [] keep = ground arith
job_in-update i k change (j ∷ js) keep = ground (arith, keep j, job_in-update i k change js keep)

-- The same under a further condition on the row.
pub job_in-update_if :
    (i k : ℕ) (test : Job → Bool) (change : Job → Job) (js : List Job)
    → ((j : Job) → (change j).id ≡ j.id)
    → job_in k (update_where (λ j. j.id == i && test j) change js) ≡ (
        if k == i
        then Option.map (λ j. if test j then change j else j) (job_in k js)
        else job_in k js)
unfolding find_where update_where
job_in-update_if i k test change [] keep = ground arith
job_in-update_if i k test change (j ∷ js) keep =
    ground (arith, keep j, job_in-update_if i k test change js keep)
