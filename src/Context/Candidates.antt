-- ===== src/Context/Candidates.antt =====
-- `SourceCandidate` and `orderCandidates` of application/context/planning-sources.ts.
pub mod Groups
use memoflow_api.Prelude.{ℕ, ◌+◌, Bool, ◌&&◌, ◌||◌, List, [], ◌∷◌, map, ltb, leb, eqb, sort_with}
use memoflow_api.Text.{Text}
use memoflow_api.Context.Ports.{PlanningSourceType}

pub data SourceGroup : Type 0 where
  bound_document connector_group other_document : SourceGroup

pub record SourceCandidate : Type 0 where
  pub group : SourceGroup
  pub type : PlanningSourceType
  pub ref : Text
  pub raw_title : Text
  pub raw_text : Text

pub record Indexed : Type 0 where
  pub candidate : SourceCandidate
  pub index : ℕ

abbrev pub group_rank : SourceGroup → ℕ
group_rank bound_document = 0
group_rank connector_group = 1
group_rank other_document = 2

-- The comparator does not put `b` before `a`: the ranks, and between equal ranks the indices.
abbrev pub not_after : Indexed → Indexed → Bool
not_after a b =
    let r = group_rank a.candidate.group in
    let q = group_rank b.candidate.group in ltb r q || (eqb r q && leb a.index b.index)

abbrev pub with_index : ℕ → List SourceCandidate → List Indexed
with_index n [] = []
with_index n (c ∷ cs) = record { candidate = c; index = n } ∷ with_index (n + 1) cs

unfoldable pub order_candidates : List SourceCandidate → List SourceCandidate
order_candidates candidates = map (λ i. i.candidate) (sort_with not_after (with_index 0 candidates))
