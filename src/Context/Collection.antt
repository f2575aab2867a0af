-- ===== src/Context/Collection.antt =====
-- The `planning_jobs` collection as MongoDB and Mongoose document it: queries by `_id`, and a
-- `findOneAndUpdate` that matches, changes and returns one row in a single atomic step. A string
-- that is no ObjectId makes a query throw a `CastError`.
use memoflow_api.Prelude.{String, Bool, ◌≡◌, Option, none, some, ◌==◌, if◌then◌else◌}
use memoflow_api.Context.Job.{PlanningJobDoc}

pub data Answer : Type 0 where
  answer : Option PlanningJobDoc → Answer
  cast_error : Answer

-- The row in an answer, if there is one.
abbrev pub row : Answer → Option PlanningJobDoc
row (answer d) = d
row cast_error = none

-- What one atomic update makes of the row that it finds.
abbrev pub update_row :
    (PlanningJobDoc → Bool)
    → (PlanningJobDoc → PlanningJobDoc)
    → Option PlanningJobDoc
    → Option PlanningJobDoc
update_row filter update none = none
update_row filter update (some d) = if filter d then some (update d) else none

-- The row that is left under the id.
abbrev pub left_row :
    (PlanningJobDoc → Bool)
    → (PlanningJobDoc → PlanningJobDoc)
    → Option PlanningJobDoc
    → Option PlanningJobDoc
left_row filter update none = none
left_row filter update (some d) = if filter d then some (update d) else some d

pub record Collection : Type 1 where
  pub Store : Type 0
  pub find_by_id : Store → String → Answer
  pub find_one_and_update :
      Store → String → (PlanningJobDoc → Bool) → (PlanningJobDoc → PlanningJobDoc) → Answer × Store
  pub create : Store → PlanningJobDoc → String × Store
  -- `{ new: true }`: the answer is the row after the update.
  pub updated :
      (s : Store) (id : String) (p : PlanningJobDoc → Bool) (f : PlanningJobDoc → PlanningJobDoc)
      → row (find_one_and_update s id p f).0 ≡ update_row p f (row (find_by_id s id))
  -- The update touches no other row, and none at all where the filter does not match.
  pub rows_after :
      (s : Store) (id : String) (p : PlanningJobDoc → Bool) (f : PlanningJobDoc → PlanningJobDoc)
      (j : String)
      → row (find_by_id (find_one_and_update s id p f).1 j)
        ≡ (if id == j then left_row p f (row (find_by_id s id)) else row (find_by_id s j))
  -- A new row gets an id that no row has.
  pub fresh_id : (s : Store) (d : PlanningJobDoc) → row (find_by_id s (create s d).0) ≡ none
  pub rows_created :
      (s : Store) (d : PlanningJobDoc) (j : String)
      → row (find_by_id (create s d).1 j)
        ≡ (if (create s d).0 == j then some d else row (find_by_id s j))
