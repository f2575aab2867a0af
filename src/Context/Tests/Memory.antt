-- ===== src/Context/Tests/Memory.antt =====
-- A collection in memory: it meets every law of `Collection`.
use Prim.Native.String.{count}
use text.Mathlib.TextLemmas.{length-nil, length-append}
use memoflow_api.Prelude.{
  ℕ, zero, suc, ◌+◌, ◌<◌, String, ◌≡◌, refl, ap, Bool, Option, none, some, List, [], ◌∷◌, ◌==◌,
  eq_iff, if◌then◌else◌, arith, Bool-cases, inl, inr,
}
use Prim.Native.String
use memoflow_api.Context.Job.{PlanningJobDoc}
use memoflow_api.Context.Collection.{Collection, answer, update_row, left_row}

abbrev pub Rows : Type 0
Rows = List (String × PlanningJobDoc)

unfoldable pub find : Rows → String → Option PlanningJobDoc
find [] id = none
find ((k, d) ∷ rows) id = if k == id then some d else find rows id

-- Rows keep their place; every row of the id is changed, and the collection holds one at most.
unfoldable pub change :
    Rows → String → (PlanningJobDoc → Bool) → (PlanningJobDoc → PlanningJobDoc) → Rows
change [] id p f = []
change ((k, d) ∷ rows) id p f =
    (k, (if k == id then (if p d then f d else d) else d)) ∷ change rows id p f

pub find-change :
    (rows : Rows) (id j : String) (p : PlanningJobDoc → Bool) (f : PlanningJobDoc → PlanningJobDoc)
    → find (change rows id p f) j ≡ (if id == j then left_row p f (find rows id) else find rows j)
unfolding find change
find-change [] id j p f = ground arith
find-change ((k, d) ∷ rows) id j p f =
    ground (arith, eq_iff k id, eq_iff k j, eq_iff id j, find-change rows id j p f)

-- A key longer than every key.
letters : ℕ → String
letters zero = String.[]
letters (suc n) = String.◌++◌ "j" (letters n)

keys_size : Rows → ℕ
keys_size [] = 0
keys_size ((k, d) ∷ rows) = count k + keys_size rows

unfoldable pub fresh : Rows → String
unfolding letters keys_size
fresh rows = letters (suc (keys_size rows))

count-letters : (n : ℕ) → count (letters n) ≡ n
unfolding letters
count-letters zero = length-nil
count-letters (suc n) = omega (arith, length-append "j" (letters n), count-letters n)

find-long : (rows : Rows) (id : String) → keys_size rows < count id → find rows id ≡ none
unfolding find keys_size
find-long [] id h = refl
find-long ((k, d) ∷ rows) id h = elim (Bool-cases (k == id)) [
  | inl same ↦ absurd (omega (arith, ap count ((eq_iff k id).0 same)))
  | inr other ↦ rw other (find-long rows id (omega arith))
]

pub find-fresh : (rows : Rows) → find rows (fresh rows) ≡ none
unfolding fresh
find-fresh rows = find-long rows _ (omega (arith, count-letters (suc (keys_size rows))))

pub find-added :
    (rows : Rows) (id : String) (d : PlanningJobDoc) (j : String)
    → find ((id, d) ∷ rows) j ≡ (if id == j then some d else find rows j)
unfolding find
find-added rows id d j = refl

abbrev pub memory : Collection
memory = record {
  Store = Rows;
  find_by_id = λ rows id. answer (find rows id);
  find_one_and_update = λ rows id p f. (answer (update_row p f (find rows id)), change rows id p f);
  create = λ rows d. (fresh rows, (fresh rows, d) ∷ rows);
  updated = λ rows id p f. refl;
  rows_after = λ rows id p f j. find-change rows id j p f;
  fresh_id = λ rows d. find-fresh rows;
  rows_created = λ rows d j. find-added rows (fresh rows) d j;
}
