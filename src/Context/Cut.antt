-- ===== src/Context/Cut.antt =====
-- `cutAtBoundary` of application/context/planning-sources.ts.
use memoflow_api.Prelude.{
  ℕ, zero, suc, ◌+◌, ◌-◌, ◌/◌, ◌≤◌, ◌≡◌, refl, sym, ap, ◌∙◌, Bool, true, false, ◌&&◌, Option, none,
  some, List, [], ◌∷◌, ◌++◌, length, take, max, ltb, leb, leb→le, eqb, if◌then◌else◌, ◌⊎◌, inl, inr,
  arith, Bool-cases, length-append, length-take,
}
use mathlib.Core.List.{append_assoc, append-nil}
use memoflow_api.Text.{Text, is_space, trim_end, put_back}

-- `'…'`
abbrev pub ellipsis : Text
ellipsis = 8230 ∷ []

unfoldable pub starts_with : Text → Text → Bool
starts_with [] t = true
starts_with (c ∷ cs) [] = false
starts_with (c ∷ cs) (d ∷ t) = eqb c d && starts_with cs t

-- `lastIndexOf`, with `none` for -1.
unfoldable pub last_index_of : Text → Text → Option ℕ
unfolding starts_with
last_index_of pattern_ [] = none
last_index_of pattern_ (c ∷ t) = elim (last_index_of pattern_ t) [
  | some i ↦ some (suc i)
  | none ↦ if starts_with pattern_ (c ∷ t) then some 0 else none
]

-- `index + 1`, which is 0 for -1.
abbrev pub next_of : Option ℕ → ℕ
next_of none = 0
next_of (some i) = i + 1

-- The places where the text may be cut, in the order in which the code prefers them.
unfoldable pub boundaries : Text → List (Option ℕ)
unfolding last_index_of
boundaries head =
    last_index_of (10 ∷ 10 ∷ []) head
    ∷ last_index_of (10 ∷ []) head
    ∷ some (
        max (next_of (last_index_of (46 ∷ 32 ∷ []) head)) (
          max (next_of (last_index_of (63 ∷ 32 ∷ []) head))
            (next_of (last_index_of (33 ∷ 32 ∷ []) head))))
    ∷ last_index_of (32 ∷ []) head
    ∷ []

-- `boundaries.find((index) => index > floor)`
unfoldable pub first_past : ℕ → List (Option ℕ) → Option ℕ
first_past floor [] = none
first_past floor (none ∷ is) = first_past floor is
first_past floor (some i ∷ is) =
    let rest = first_past floor is in if ltb floor i then some i else rest

abbrev pub cut_head : Option ℕ → Text → Text
cut_head none head = head
cut_head (some i) head = take i head

unfoldable pub cut_at_boundary : Text → ℕ → Text
unfolding boundaries first_past trim_end
cut_at_boundary text most =
    if leb (length text) most
    then text
    else (let head = take (most - length ellipsis) text in
        trim_end (cut_head (first_past ((most - length ellipsis) / 2) (boundaries head)) head)
        ++ ellipsis)

-- `xs` is the beginning of `ys`.
abbrev pub Begins : Text → Text → Type 0
Begins xs ys = (rest : Text) × (ys ≡ xs ++ rest)

Begins-trans : (xs ys zs : Text) → Begins xs ys → Begins ys zs → Begins xs zs
Begins-trans xs ys zs (r, p) (s, q) = (r ++ s, q ∙ (ap (λ l. l ++ s) p ∙ append_assoc xs r s))

take-Begins : (n : ℕ) (t : Text) → Begins (take n t) t
take-Begins zero t = (t, refl)
take-Begins (suc n) [] = ([], refl)
take-Begins (suc n) (c ∷ t) = let (r, p) = take-Begins n t in (r, ap (λ l. c ∷ l) p)

trim_end-Begins : (t : Text) → Begins (trim_end t) t
unfolding trim_end
trim_end-Begins [] = ([], refl)
trim_end-Begins (c ∷ t) = put (trim_end t) (trim_end-Begins t)
  where
    put : (u : Text) → Begins u t → Begins (put_back c u) (c ∷ t)
    put (d ∷ u) (r, p) = (r, ap (λ l. c ∷ l) p)
    put [] (r, p) = elim (Bool-cases (is_space c)) [
      | inl space ↦ rw space (c ∷ t, refl)
      | inr kept ↦ rw kept (t, refl)
    ]

cut_head-Begins : (o : Option ℕ) (t : Text) → Begins (cut_head o t) t
cut_head-Begins none t = ([], sym (append-nil t))
cut_head-Begins (some i) t = take-Begins i t

Begins-length : (xs ys : Text) → Begins xs ys → length xs ≤ length ys
Begins-length xs ys (r, p) = omega (arith, ap length p, length-append xs r)

-- A text cut to at least one unit is no longer than allowed, and is the text itself or a beginning of
-- it with an ellipsis.
pub cut_at_boundary-bounds :
    (text : Text) (most : ℕ)
    → 1 ≤ most
    → (length (cut_at_boundary text most) ≤ most)
      × ((cut_at_boundary text most ≡ text)
          ⊎ ((start : Text) × Begins start text × (cut_at_boundary text most ≡ start ++ ellipsis)))
unfolding cut_at_boundary
cut_at_boundary-bounds text most some_room = elim (Bool-cases (leb (length text) most)) [
  | inl short ↦ rw short (leb→le _ _ short, inl refl)
  | inr long ↦
      let head = take (most - length ellipsis) text in
      let cut = cut_head (first_past ((most - length ellipsis) / 2) (boundaries head)) head in
      let of_cut = trim_end-Begins cut in
      let of_head = Begins-trans (trim_end cut) cut head of_cut (cut_head-Begins _ head) in
      rw long (
        omega (
          arith,
          length-append (trim_end cut) ellipsis,
          Begins-length (trim_end cut) head of_head,
          length-take (most - length ellipsis) text,
        ),
        inr (
          trim_end cut,
          Begins-trans (trim_end cut) head text of_head (take-Begins _ text),
          refl,
        ),
      )
]
