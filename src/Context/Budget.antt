-- ===== src/Context/Budget.antt =====
-- `budgetSources` and `sectionCandidates` of application/context/planning-sources.ts. `prepare` stands
-- for `prepareUntrustedText` and `decimal` for the decimal digits of a number. Where the code's
-- `room` is negative, it is 0 here, and the source is dropped the same.
pub mod Bounds
use memoflow_api.Prelude.{
  ℕ, zero, suc, ◌+◌, ◌-◌, ◌≤◌, ◌<◌, ◌≡◌, refl, min, Bool, true, false, not, ◌||◌, List, [], ◌∷◌,
  ◌++◌, length, take, leb, ltb, eqb, if◌then◌else◌, arith, Bool-cases, inl, inr, All, length-append,
}
use memoflow_api.Text.{Text, units, is_space, trim, is_empty}
use memoflow_api.Context.Ports.{PlanningSourceType, section, connector, PlanningSourceMeta}
use memoflow_api.Context.Candidates.{SourceCandidate, bound_document, other_document}
use memoflow_api.Context.Cut.{cut_at_boundary, cut_at_boundary-bounds}

abbrev pub max_excerpt_chars : ℕ
max_excerpt_chars = 4000

abbrev pub max_source_title_chars : ℕ
max_source_title_chars = 200

abbrev pub max_prepare_chars : ℕ
max_prepare_chars = 50000

abbrev pub min_excerpt_chars : ℕ
min_excerpt_chars = 100

pub record BudgetedSource : Type 0 where
  pub meta : PlanningSourceMeta
  pub excerpt : Text
  pub raw_title : Text
  pub raw_text : Text

pub record BudgetResult : Type 0 where
  pub sources : List BudgetedSource
  pub dropped : ℕ
  pub text : Text

-- domain/context/section-retriever.port.ts
pub record RetrievedSection : Type 0 where
  pub section_id : Text
  pub document_id : Text
  pub title : Text
  pub document_title : Text
  pub content : Text
  pub in_bound_document : Bool
  pub matched : Bool

abbrev pub section_candidate : RetrievedSection → SourceCandidate
section_candidate s = record {
  group = if s.in_bound_document then bound_document else other_document;
  type = section;
  ref = s.section_id;
  raw_title = s.title ++ units " (" ++ s.document_title ++ units ")";
  raw_text = s.content;
}

unfoldable pub section_candidates : List RetrievedSection → List SourceCandidate
section_candidates [] = []
section_candidates (s ∷ ss) =
    let rest = section_candidates ss in
    if is_empty (trim s.content) then rest else section_candidate s ∷ rest

-- A run of spaces becomes one.
abbrev pub spaced : Text → Text
spaced [] = 32 ∷ []
spaced (c ∷ t) = if is_space c then c ∷ t else 32 ∷ c ∷ t

abbrev pub collapsed : Text → Text
collapsed [] = []
collapsed (c ∷ t) = let rest = collapsed t in if is_space c then spaced rest else c ∷ rest

unfoldable pub single_line : Text → Text
single_line t = trim (collapsed t)

abbrev pub type_name : PlanningSourceType → Text
type_name section = units "section"
type_name connector = units "connector"

abbrev pub is_same : Text → Text → Bool
is_same [] [] = true
is_same (c ∷ s) (d ∷ t) = let rest = is_same s t in if eqb c d then rest else false
is_same _ _ = false

-- What stands before a block, after `n` blocks.
abbrev pub separator : ℕ → Text
separator zero = []
separator (suc n) = 10 ∷ 10 ∷ []

-- The blocks that follow `n` others, joined by empty lines.
unfoldable pub joined : ℕ → List Text → Text
joined n [] = []
joined n (b ∷ bs) = separator n ++ (b ++ joined (suc n) bs)

-- The loop's results from a candidate on.
pub record Budgeted : Type 0 where
  pub sources : List BudgetedSource
  pub blocks : List Text
  pub dropped : ℕ

module _ (prepare : Text → Text) (decimal : ℕ → Text) where
  abbrev pub prepared_text : SourceCandidate → Text
  prepared_text c = trim (prepare (take max_prepare_chars c.raw_text))

  abbrev pub title_of : SourceCandidate → Text
  title_of c = cut_at_boundary (single_line (prepare c.raw_title)) max_source_title_chars

  abbrev pub id_of : ℕ → Text
  id_of n = units "S" ++ decimal (n + 1)

  abbrev pub header_of : ℕ → SourceCandidate → Text
  header_of n c =
      units "["
      ++ id_of n
      ++ units "] "
      ++ type_name c.type
      ++ units ": "
      ++ title_of c
      ++ (10 ∷ [])

  abbrev pub room_for : ℕ → ℕ → SourceCandidate → ℕ
  room_for n remaining c = remaining - length (separator n) - length (header_of n c)

  abbrev pub excerpt_of : ℕ → ℕ → SourceCandidate → Text
  excerpt_of n remaining c =
      cut_at_boundary (prepared_text c) (min max_excerpt_chars (room_for n remaining c))

  abbrev pub source_of : ℕ → Text → SourceCandidate → BudgetedSource
  source_of n excerpt c = record {
    meta = record {
      id = id_of n;
      type = c.type;
      title = title_of c;
      ref = c.ref;
      truncated =
          not (is_same excerpt (prepared_text c)) || ltb max_prepare_chars (length c.raw_text);
    };
    excerpt = excerpt;
    raw_title = c.raw_title;
    raw_text = c.raw_text;
  }

  abbrev pub kept : ℕ → SourceCandidate → Text → Budgeted → Budgeted
  kept n c excerpt rest = record {
    sources = source_of n excerpt c ∷ rest.sources;
    blocks = (header_of n c ++ excerpt) ∷ rest.blocks;
    dropped = rest.dropped;
  }

  -- The loop of `budgetSources` after `n` sources.
  unfoldable pub budget_from : (n remaining : ℕ) → List SourceCandidate → Budgeted
  budget_from n remaining [] = record { sources = []; blocks = []; dropped = 0 }
  budget_from n remaining (c ∷ cs) =
      let skipped = budget_from n remaining cs in
      let excerpt = excerpt_of n remaining c in
      let after =
        budget_from (suc n) (remaining - (length (separator n) + length (header_of n c ++ excerpt)))
          cs in
      if is_empty (prepared_text c)
      then skipped
      else if ltb (room_for n remaining c) (min min_excerpt_chars (length (prepared_text c)))
      then record skipped { dropped = skipped.dropped + 1 }
      else kept n c excerpt after

  unfoldable pub budget_sources : List SourceCandidate → ℕ → BudgetResult
  budget_sources candidates max_chars =
      let b = budget_from 0 max_chars candidates in
      record { sources = b.sources; dropped = b.dropped; text = joined 0 b.blocks }
