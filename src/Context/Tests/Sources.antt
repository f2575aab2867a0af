-- ===== src/Context/Tests/Sources.antt =====
-- The budget on two sources, the second of which has little room, and the citations of a reply.
use memoflow_api.Prelude.{
  ℕ, ◌+◌, ◌≤◌, ◌≡◌, refl, true, false, List, [], ◌∷◌, length, All, none, some, map,
}
use memoflow_api.Text.{Text, units, trim_start, is_space, trim}
use memoflow_api.Context.Cut.{cut_at_boundary}
use memoflow_api.Context.Candidates.{SourceCandidate}
use memoflow_api.Context.Ports.{CitedSource, section, connector}
use memoflow_api.Context.Citations.{
  CitedEntry, plain, with_id, other_entry, cite, cite-known, Unrepeated, IsIn, normalize_id,
  source_of, read_digits,
}
use memoflow_api.Context.Budget.{
  RetrievedSection, section_candidates, budget_sources, budget_from, joined, single_line,
}
use memoflow_api.Context.Budget.Bounds.{NumberedFrom, budget_sources-bounds}

-- Numbers of one digit.
abbrev digit : ℕ → Text
digit n = (48 + n) ∷ []

abbrev as_is : Text → Text
as_is t = t

abbrev sections : List RetrievedSection
sections =
    record {
      section_id = units "a";
      document_id = units "da";
      title = units "Intro";
      document_title = units "Thesis";
      content = units "Why and how";
      in_bound_document = true;
      matched = true;
    }
    ∷ record {
      section_id = units "b";
      document_id = units "db";
      title = units "Empty";
      document_title = units "Thesis";
      content = units "  ";
      in_bound_document = true;
      matched = true;
    }
    ∷ record {
      section_id = units "c";
      document_id = units "dc";
      title = units "Notes";
      document_title = units "Other";
      content = units "Long notes";
      in_bound_document = false;
      matched = true;
    }
    ∷ []

abbrev candidates : List SourceCandidate
unfolding section_candidates trim is_space
candidates = section_candidates sections

-- The section without text is no candidate.
two_candidates : length candidates ≡ 2
unfolding section_candidates trim is_space
two_candidates = refl

one_fits :
    (budget_sources as_is digit candidates 60).text
    ≡ units "[S1] section: Intro (Thesis)\nWhy and how"
unfolding budget_sources budget_from joined single_line section_candidates trim is_space
    cut_at_boundary
one_fits = refl

budget_sources-bounds_example :
    let r = budget_sources as_is digit candidates 60 in
    (length r.text ≤ 60)
    × All (λ s. length s.excerpt ≤ 4000) r.sources
    × NumberedFrom as_is digit 0 r.sources
    × (length r.sources + r.dropped ≤ length candidates)
budget_sources-bounds_example = budget_sources-bounds as_is digit candidates 60

abbrev given : List CitedSource
given =
    record { id = units "S1"; type = section; title = units "Intro" }
    ∷ record { id = units "S2"; type = connector; title = units "Board" }
    ∷ []

abbrev claimed : List CitedEntry
claimed =
    plain (units " [s2] ")
    ∷ plain (units "S9")
    ∷ with_id (some (units "S1"))
    ∷ with_id none
    ∷ plain (units "S2")
    ∷ other_entry
    ∷ []

two_cited : map (λ c. c.id) (cite digit given [] claimed) ≡ units "S2" ∷ units "S1" ∷ []
unfolding cite normalize_id source_of read_digits trim is_space trim_start
two_cited = refl

cite-known_example :
    Unrepeated digit (cite digit given [] claimed)
    × All (λ c. IsIn digit c given) (cite digit given [] claimed)
cite-known_example = cite-known digit given claimed
