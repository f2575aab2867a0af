-- ===== src/Context/Budget/Bounds.antt =====
-- The budget is kept.
use memoflow_api.Prelude.{
  ℕ, suc, ◌+◌, ◌-◌, ◌≤◌, ◌≡◌, refl, min, false, List, [], ◌∷◌, ◌++◌, length, ltb, arith, Bool-cases,
  inl, inr, All, length-append,
}
use memoflow_api.Text.{Text, is_empty}
use memoflow_api.Context.Candidates.{SourceCandidate}
use memoflow_api.Context.Cut.{cut_at_boundary-bounds}
use memoflow_api.Context.Budget.{
  Budgeted, BudgetedSource, budget_from, budget_sources, joined, separator, kept, id_of, header_of,
  room_for, excerpt_of, prepared_text, min_excerpt_chars, max_excerpt_chars,
}

module _ (prepare : Text → Text) (decimal : ℕ → Text) where
  -- The sources are numbered one after another.
  abbrev pub NumberedFrom : ℕ → List BudgetedSource → Type 0
  NumberedFrom n [] = Unit {0}
  NumberedFrom n (s ∷ ss) = (s.meta.id ≡ id_of prepare decimal n) × NumberedFrom (suc n) ss

  abbrev Fits : ℕ → ℕ → ℕ → Budgeted → Type 0
  Fits n remaining candidates b =
      (length (joined n b.blocks) ≤ remaining)
      × All (λ s. length s.excerpt ≤ 4000) b.sources
      × NumberedFrom n b.sources
      × (length b.sources + b.dropped ≤ candidates)

  non_empty : (t : Text) → is_empty t ≡ false → 1 ≤ length t
  non_empty t h = ground arith

  room_left : (a b : ℕ) → 1 ≤ b → ltb a (min min_excerpt_chars b) ≡ false → 1 ≤ a
  room_left a b some h = ground arith

  kept-Fits :
      (n remaining candidates : ℕ) (c : SourceCandidate) (rest : Budgeted)
      → is_empty (prepared_text prepare decimal c) ≡ false
      → ltb
          (room_for prepare decimal n remaining c)
          (min min_excerpt_chars (length (prepared_text prepare decimal c)))
        ≡ false
      → Fits
          (suc n)
          (remaining
            - (length (separator n)
                + length
                    (header_of prepare decimal n c ++ excerpt_of prepare decimal n remaining c)))
          candidates
          rest
      → Fits n remaining
          (suc candidates)
          (kept prepare decimal n c (excerpt_of prepare decimal n remaining c) rest)
  unfolding joined
  kept-Fits n remaining candidates c rest filled roomy (short, small, numbered, few) =
      (fits, (omega (arith, cut), small), (refl, numbered), omega (arith, few))
    where
      header : Text
      header = header_of prepare decimal n c

      excerpt : Text
      excerpt = excerpt_of prepare decimal n remaining c

      room : ℕ
      room = room_for prepare decimal n remaining c

      some_room : 1 ≤ room
      some_room =
          room_left room (length (prepared_text prepare decimal c)) (non_empty _ filled) roomy

      cut : length excerpt ≤ min max_excerpt_chars room
      cut =
          (cut_at_boundary-bounds (prepared_text prepare decimal c) (min max_excerpt_chars room)
            (omega (arith, some_room))).0

      fits : length (separator n ++ ((header ++ excerpt) ++ joined (suc n) rest.blocks)) ≤ remaining
      fits = omega (
        arith,
        length-append (separator n) ((header ++ excerpt) ++ joined (suc n) rest.blocks),
        length-append (header ++ excerpt) (joined (suc n) rest.blocks),
        length-append header excerpt,
        some_room,
        cut,
        short,
      )

  budget_from-Fits :
      (cs : List SourceCandidate) (n remaining : ℕ)
      → Fits n remaining (length cs) (budget_from prepare decimal n remaining cs)
  unfolding budget_from joined
  budget_from-Fits [] n remaining = (omega arith, tt, tt, omega arith)
  budget_from-Fits (c ∷ cs) n remaining =
      elim (Bool-cases (is_empty (prepared_text prepare decimal c))) [
        | inl blank ↦
            let (short, small, numbered, few) = budget_from-Fits cs n remaining in
            rw blank (short, small, numbered, omega (arith, few))
        | inr filled ↦
            elim (Bool-cases (
              ltb (room_for prepare decimal n remaining c)
                (min min_excerpt_chars (length (prepared_text prepare decimal c))))) [
                  | inl full ↦
                      let (short, small, numbered, few) = budget_from-Fits cs n remaining in
                      rw (filled, full) (short, small, numbered, omega (arith, few))
                  | inr roomy ↦
                      rw (filled, roomy)
                        (kept-Fits n remaining (length cs) c _ filled roomy
                          (budget_from-Fits cs (suc n) _))
                ]
      ]

  -- The rendered text is never longer than the budget, no excerpt is longer than 4000 characters, the
  -- sources are numbered S1, S2 and so on as they stand, and kept and dropped sources together are no
  -- more than the candidates.
  pub budget_sources-bounds :
      (candidates : List SourceCandidate) (max_chars : ℕ)
      → let r = budget_sources prepare decimal candidates max_chars in
        (length r.text ≤ max_chars)
        × All (λ s. length s.excerpt ≤ 4000) r.sources
        × NumberedFrom 0 r.sources
        × (length r.sources + r.dropped ≤ length candidates)
  unfolding budget_sources
  budget_sources-bounds candidates max_chars = budget_from-Fits candidates 0 max_chars
