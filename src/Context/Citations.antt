-- ===== src/Context/Citations.antt =====
-- The source list of `validateCitations` of application/context/planning-citations.ts. `decimal` stands
-- for the decimal digits of a number. The cleaning of inline citations is not modelled.
use memoflow_api.Prelude.{
  ℕ, zero, suc, ◌+◌, ◌-◌, ◌*◌, ◌≡◌, refl, sym, ap, Bool, true, false, ◌&&◌, ◌||◌, Option, none,
  some, List, [], ◌∷◌, ◌++◌, any, leb, eqb, if◌then◌else◌, arith, Bool-cases, inl, inr, All, ◌⊎◌,
}
use mathlib.Core.Option.{none-ne-some}
use memoflow_api.Text.{Text, units, trim, trim_start}
use memoflow_api.Context.Ports.{CitedSource}
use memoflow_api.Context.Budget.{is_same}

-- An entry of the model's list: a text, an object with an `id` that is a text or not, or another value.
pub data CitedEntry : Type 0 where
  plain : Text → CitedEntry
  with_id : Option Text → CitedEntry
  other_entry : CitedEntry

abbrev pub raw_id : CitedEntry → Option Text
raw_id (plain t) = some t
raw_id (with_id t) = t
raw_id other_entry = none

abbrev is_digit : ℕ → Bool
is_digit c = leb 48 c && leb c 57

-- The digits at the start, at most `most`: their number so far, how many there are, and the rest.
unfoldable pub read_digits : (most value count : ℕ) → Text → ℕ × (ℕ × Text)
read_digits zero value count t = (value, (count, t))
read_digits (suc most) value count [] = (value, (count, []))
read_digits (suc most) value count (c ∷ t) =
    let rest = read_digits most (value * 10 + (c - 48)) (count + 1) t in
    if is_digit c then rest else (value, (count, c ∷ t))

abbrev pub without_bracket : Text → Text
without_bracket [] = []
without_bracket (c ∷ t) = if eqb c 91 then t else c ∷ t

-- `\s*\]?$`
abbrev pub is_closed : Text → Bool
is_closed t = closed (trim_start t)
  where
    closed : Text → Bool
    closed [] = true
    closed (c ∷ []) = eqb c 93
    closed (c ∷ d ∷ t) = false

abbrev pub number_after : ℕ × (ℕ × Text) → Option ℕ
number_after (value, (count, rest)) = if leb 1 count && is_closed rest then some value else none

-- After the bracket and the spaces: `S`, in either case, and the number.
abbrev pub source_number : Text → Option ℕ
source_number [] = none
source_number (c ∷ t) = if eqb c 83 || eqb c 115 then number_after (read_digits 4 0 0 t) else none

abbrev or_source : CitedSource → Option CitedSource → CitedSource
or_source d none = d
or_source d (some s) = s

module _ (decimal : ℕ → Text) where
  abbrev pub id_text : Option ℕ → Option Text
  id_text none = none
  id_text (some n) = some (units "S" ++ decimal n)

  unfoldable pub normalize_id : Option Text → Option Text
  normalize_id none = none
  normalize_id (some t) = id_text (source_number (trim_start (without_bracket (trim t))))

  abbrev pub or_this : CitedSource → Text → Option CitedSource → Option CitedSource
  or_this s id (some later) = some later
  or_this s id none = if is_same s.id id then some s else none

  -- `byId.get(id)`: of sources with one id, the last one.
  unfoldable pub source_of : List CitedSource → Text → Option CitedSource
  source_of [] id = none
  source_of (s ∷ ss) id = or_this s id (source_of ss id)

  abbrev pub looked_up : List CitedSource → Option Text → Option CitedSource
  looked_up sources none = none
  looked_up sources (some id) = source_of sources id

  abbrev pub with_source : List CitedSource → Option CitedSource → List CitedSource
  with_source cited none = cited
  with_source cited (some s) = if any (λ c. is_same c.id s.id) cited then cited else cited ++ s ∷ []

  unfoldable pub cite : List CitedSource → List CitedSource → List CitedEntry → List CitedSource
  cite sources cited [] = cited
  cite sources cited (e ∷ es) =
      cite sources (with_source cited (looked_up sources (normalize_id (raw_id e)))) es

  abbrev pub IsIn : CitedSource → List CitedSource → Type 0
  IsIn c [] = ⊥
  IsIn c (s ∷ ss) = (c ≡ s) ⊎ IsIn c ss

  abbrev pub Unrepeated : List CitedSource → Type 0
  Unrepeated [] = Unit {0}
  Unrepeated (c ∷ cs) = (any (λ d. is_same c.id d.id) cs ≡ false) × Unrepeated cs

  both : (a b : Bool) → (a || b) ≡ false → (a ≡ false) × (b ≡ false)
  both a b h = ground arith

  any-append_false :
      (f : CitedSource → Bool) (cs : List CitedSource) (s : CitedSource)
      → any f cs ≡ false
      → f s ≡ false
      → any f (cs ++ s ∷ []) ≡ false
  any-append_false f [] s h k = ground arith
  any-append_false f (c ∷ cs) s h k = ground (arith, any-append_false f cs s)

  append-Unrepeated :
      (cs : List CitedSource) (s : CitedSource)
      → Unrepeated cs
      → any (λ c. is_same c.id s.id) cs ≡ false
      → Unrepeated (cs ++ s ∷ [])
  append-Unrepeated [] s h k = (refl, tt)
  append-Unrepeated (c ∷ cs) s (apart, h) k =
      let (other, none_else) = both (is_same c.id s.id) _ k in
      (
        any-append_false (λ d. is_same c.id d.id) cs s apart other,
        append-Unrepeated cs s h none_else,
      )

  source_of-IsIn :
      (sources : List CitedSource) (id : Text) (s : CitedSource)
      → source_of sources id ≡ some s
      → IsIn s sources
  unfolding source_of
  source_of-IsIn [] id s h = none-ne-some s h
  source_of-IsIn (t ∷ ts) id s h = by_later (source_of ts id) (source_of-IsIn ts id s) h
    where
      by_here : (b : Bool) → (if b then some t else none) ≡ some s → s ≡ t
      by_here true same = ap (or_source t) (sym same)
      by_here false same = absurd (none-ne-some s same)

      by_later :
          (o : Option CitedSource)
          → (o ≡ some s → IsIn s ts)
          → or_this t id o ≡ some s
          → (s ≡ t) ⊎ IsIn s ts
      by_later (some later) ih same = inr (ih same)
      by_later none ih same = inl (by_here (is_same t.id id) same)

  -- Every cited source is one of those given, and none is cited twice.
  abbrev Consistent : List CitedSource → List CitedSource → Type 0
  Consistent sources cited = Unrepeated cited × All (λ c. IsIn c sources) cited

  with_source-Consistent :
      (sources cited : List CitedSource) (o : Option CitedSource)
      → ((s : CitedSource) → o ≡ some s → IsIn s sources)
      → Consistent sources cited
      → Consistent sources (with_source cited o)
  with_source-Consistent sources cited none known h = h
  with_source-Consistent sources cited (some s) known (apart, all_in) =
      elim (Bool-cases (any (λ c. is_same c.id s.id) cited)) [
        | inl there ↦ rw there (apart, all_in)
        | inr new ↦
            rw new (append-Unrepeated cited s apart new, append-All cited s all_in (known s refl))
      ]
    where
      append-All :
          (cs : List CitedSource) (c : CitedSource)
          → All (λ d. IsIn d sources) cs
          → IsIn c sources
          → All (λ d. IsIn d sources) (cs ++ c ∷ [])
      append-All [] c h k = (k, tt)
      append-All (d ∷ cs) c (here, h) k = (here, append-All cs c h k)

  looked_up-IsIn :
      (sources : List CitedSource) (id : Option Text) (s : CitedSource)
      → looked_up sources id ≡ some s
      → IsIn s sources
  looked_up-IsIn sources none s h = absurd (none-ne-some s h)
  looked_up-IsIn sources (some id) s h = source_of-IsIn sources id s h

  cite-Consistent :
      (sources cited : List CitedSource) (entries : List CitedEntry)
      → Consistent sources cited
      → Consistent sources (cite sources cited entries)
  unfolding cite
  cite-Consistent sources cited [] h = h
  cite-Consistent sources cited (e ∷ es) h =
      cite-Consistent sources (with_source cited (looked_up sources (normalize_id (raw_id e)))) es (
        with_source-Consistent sources cited _ (looked_up-IsIn sources (normalize_id (raw_id e))) h)

  -- Whatever the model claims to have used: the cited sources are sources that it was given, and no id
  -- is cited twice.
  pub cite-known :
      (sources : List CitedSource) (entries : List CitedEntry)
      → Unrepeated (cite sources [] entries) × All (λ c. IsIn c sources) (cite sources [] entries)
  cite-known sources entries = cite-Consistent sources [] entries (tt, tt)
