-- ===== src/Context/Candidates/Groups.antt =====
-- The order of the candidates, group by group.
use memoflow_api.Prelude.{
  ℕ, ◌+◌, ◌≤◌, ◌≡◌, refl, ◌∙◌, ap, Bool, true, false, List, [], ◌∷◌, ◌++◌, map, keep, All,
  All-append, arith, insert_with, ltb, leb, eqb, ◌&&◌, ◌||◌, sort_with, insert_with-first,
  insert_with-past,
}
use memoflow_api.Context.Candidates.{
  SourceGroup, group_rank, bound_document, connector_group, other_document, SourceCandidate,
  Indexed, not_after, with_index, order_candidates,
}

abbrev pub is_bound : SourceGroup → Bool
is_bound bound_document = true
is_bound _ = false

abbrev pub is_connector : SourceGroup → Bool
is_connector connector_group = true
is_connector _ = false

abbrev pub is_other : SourceGroup → Bool
is_other other_document = true
is_other _ = false

-- The candidates of a group, with their indices from `n`.
abbrev group : (SourceGroup → Bool) → ℕ → List SourceCandidate → List Indexed
group p n cs = keep (λ i. p i.candidate.group) (with_index n cs)

abbrev groups : ℕ → List SourceCandidate → List Indexed
groups n cs = group is_bound n cs ++ (group is_connector n cs ++ group is_other n cs)

keep-All :
    {A : Type 0} (p : A → Bool) (P : A → Type 0) (xs : List A)
    → All P xs
    → All (λ x. (p x ≡ true) × P x) (keep p xs)
keep-All p P [] h = tt
keep-All p P (x ∷ xs) (hx, h) = by_test (p x) refl (keep-All p P xs h)
  where
    by_test :
        (b : Bool)
        → p x ≡ b
        → All (λ y. (p y ≡ true) × P y) (keep p xs)
        → All (λ y. (p y ≡ true) × P y) (elim b [ true ↦ x ∷ keep p xs | false ↦ keep p xs ])
    by_test true kept ih = ((kept, hx), ih)
    by_test false dropped ih = ih

with_index-low :
    (m n : ℕ) (cs : List SourceCandidate) → m ≤ n → All (λ i. m ≤ i.index) (with_index n cs)
with_index-low m n [] low = tt
with_index-low m n (c ∷ cs) low = (low, with_index-low m (n + 1) cs (omega arith))

keep-map :
    (p : SourceGroup → Bool) (n : ℕ) (cs : List SourceCandidate)
    → map (λ i. i.candidate) (group p n cs) ≡ keep (λ c. p c.group) cs
keep-map p n [] = refl
keep-map p n (c ∷ cs) = by_test (p c.group) (keep-map p (n + 1) cs)
  where
    by_test :
        (b : Bool)
        → map (λ i. i.candidate) (group p (n + 1) cs) ≡ keep (λ d. p d.group) cs
        → map
            (λ i. i.candidate)
            (elim b [
              | true ↦ record { candidate = c; index = n } ∷ group p (n + 1) cs
              | false ↦ group p (n + 1) cs
            ])
          ≡ elim b [ true ↦ c ∷ keep (λ d. p d.group) cs | false ↦ keep (λ d. p d.group) cs ]
    by_test true ih = ap (λ l. c ∷ l) ih
    by_test false ih = ih

map-append3 :
    {A B : Type 0} (f : A → B) (xs ys zs : List A)
    → map f (xs ++ (ys ++ zs)) ≡ map f xs ++ (map f ys ++ map f zs)
map-append3 f [] [] zs = refl
map-append3 f [] (y ∷ ys) zs = ap (λ l. f y ∷ l) (map-append3 f [] ys zs)
map-append3 f (x ∷ xs) ys zs = ap (λ l. f x ∷ l) (map-append3 f xs ys zs)

All-imp :
    {A : Type 0} {P Q : A → Type 0} (xs : List A) → ((x : A) → P x → Q x) → All P xs → All Q xs
All-imp [] f h = tt
All-imp (x ∷ xs) f (hx, h) = (f x hx, All-imp xs f h)

-- Between an index and later ones, the ranks decide.
by_rank : (r q n k : ℕ) → n ≤ k → (ltb r q || (eqb r q && leb n k)) ≡ leb r q
by_rank r q n k low = ground arith

module _ (d : SourceCandidate) (n : ℕ) (cs : List SourceCandidate) where
  abbrev with_group : SourceGroup → SourceCandidate
  with_group g = record d { group = g }

  abbrev this : SourceGroup → Indexed
  this g = record { candidate = with_group g; index = n }

  -- How a candidate compares with the later ones of a group.
  against_group :
      (g : SourceGroup) (p : SourceGroup → Bool) (b : Bool)
      → ((q : SourceGroup) → p q ≡ true → leb (group_rank g) (group_rank q) ≡ b)
      → All (λ i. not_after (this g) i ≡ b) (group p (n + 1) cs)
  against_group g p b ranks =
      All-imp (group p (n + 1) cs)
        (λ i (own, low). by_rank _ _ n i.index low ∙ ranks i.candidate.group own)
        (keep-All (λ i. p i.candidate.group) (λ i. n ≤ i.index) (with_index (n + 1) cs)
          (with_index-low n (n + 1) cs (omega arith)))

  -- Among the later candidates, a candidate's place is in front of its group.
  insert-groups :
      (g : SourceGroup)
      → insert_with not_after (this g) (groups (n + 1) cs) ≡ groups n (with_group g ∷ cs)
  insert-groups bound_document = insert_with-first not_after (this bound_document) _ (
      All-append _ (group is_bound (n + 1) cs) _
        (against_group bound_document is_bound true (λ q own. ground arith))
        (All-append _ (group is_connector (n + 1) cs) _
          (against_group bound_document is_connector true (λ q own. ground arith))
          (against_group bound_document is_other true (λ q own. ground arith))))
  insert-groups connector_group =
      insert_with-past not_after (this connector_group) (group is_bound (n + 1) cs) _
        (against_group connector_group is_bound false (λ q own. ground arith))
      ∙ ap (λ l. group is_bound (n + 1) cs ++ l)
          (insert_with-first not_after (this connector_group) _ (
            All-append _ (group is_connector (n + 1) cs) _
              (against_group connector_group is_connector true (λ q own. ground arith))
              (against_group connector_group is_other true (λ q own. ground arith))))
  insert-groups other_document =
      insert_with-past not_after (this other_document) (group is_bound (n + 1) cs) _
        (against_group other_document is_bound false (λ q own. ground arith))
      ∙ ap (λ l. group is_bound (n + 1) cs ++ l)
          (insert_with-past not_after (this other_document) (group is_connector (n + 1) cs) _
              (against_group other_document is_connector false (λ q own. ground arith))
            ∙ ap (λ l. group is_connector (n + 1) cs ++ l)
                (insert_with-first not_after (this other_document) _
                  (against_group other_document is_other true (λ q own. ground arith))))

sort-groups :
    (n : ℕ) (cs : List SourceCandidate) → sort_with not_after (with_index n cs) ≡ groups n cs
unfolding sort_with
sort-groups n [] = refl
sort-groups n (c ∷ cs) =
    ap (λ l. insert_with not_after (record { candidate = c; index = n }) l) (sort-groups (n + 1) cs)
    ∙ insert-groups c n cs c.group

-- The ordered candidates are those of the bound document, then the connectors', then those of other
-- documents, each group in its old order.
pub order_candidates-groups :
    (candidates : List SourceCandidate)
    → order_candidates candidates
      ≡ keep (λ c. is_bound c.group) candidates
        ++ (keep (λ c. is_connector c.group) candidates ++ keep (λ c. is_other c.group) candidates)
unfolding order_candidates
order_candidates-groups candidates =
    ap (λ l. map (λ i. i.candidate) l) (sort-groups 0 candidates)
    ∙ map-append3 (λ i. i.candidate) (group is_bound 0 candidates) (group is_connector 0 candidates)
        (group is_other 0 candidates)
    ∙ rw
        (
          keep-map is_bound 0 candidates,
          keep-map is_connector 0 candidates,
          keep-map is_other 0 candidates,
        )
        refl
