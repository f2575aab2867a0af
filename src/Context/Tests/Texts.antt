-- ===== src/Context/Tests/Texts.antt =====
-- The cutting of texts on concrete ones.
use memoflow_api.Prelude.{◌≤◌, ◌≡◌, refl, ◌⊎◌, List, [], ◌∷◌, ◌++◌, length, arith}
use memoflow_api.Prelude.{keep}
use memoflow_api.Context.Ports.{section, connector}
use memoflow_api.Context.Candidates.{
  SourceCandidate, bound_document, connector_group, other_document, order_candidates,
}
use memoflow_api.Context.Candidates.Groups.{
  is_bound, is_connector, is_other, order_candidates-groups,
}
use memoflow_api.Text.{Text, units, trim_end, is_space}
use memoflow_api.Context.Cut.{
  cut_at_boundary, boundaries, first_past, last_index_of, starts_with, ellipsis, Begins,
  cut_at_boundary-bounds,
}

cuts_at_a_space : cut_at_boundary (units "one two three") 10 ≡ units "one two…"
unfolding cut_at_boundary boundaries first_past last_index_of starts_with trim_end is_space
cuts_at_a_space = refl

-- With no room at all the ellipsis still stands.
no_room : cut_at_boundary (units "one") 0 ≡ ellipsis
unfolding cut_at_boundary boundaries first_past last_index_of starts_with trim_end is_space
no_room = refl

cut_at_boundary-bounds_example :
    (length (cut_at_boundary (units "one two three") 10) ≤ 10)
    × ((cut_at_boundary (units "one two three") 10 ≡ units "one two three")
        ⊎ ((start : Text) × Begins start (units "one two three")
            × (cut_at_boundary (units "one two three") 10 ≡ start ++ ellipsis)))
cut_at_boundary-bounds_example = cut_at_boundary-bounds (units "one two three") 10 (omega arith)

abbrev other_candidate : SourceCandidate
other_candidate = record {
  group = other_document;
  type = section;
  ref = units "s1";
  raw_title = units "Notes";
  raw_text = units "text";
}

abbrev candidates : List SourceCandidate
candidates =
    other_candidate
    ∷ record other_candidate { group = connector_group; type = connector }
    ∷ record other_candidate { group = bound_document; ref = units "s2" }
    ∷ []

order_candidates-groups_example :
    order_candidates candidates
    ≡ keep (λ c. is_bound c.group) candidates
      ++ (keep (λ c. is_connector c.group) candidates ++ keep (λ c. is_other c.group) candidates)
order_candidates-groups_example = order_candidates-groups candidates
