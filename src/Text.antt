-- ===== src/Text.antt =====
-- JavaScript strings as lists of UTF-16 code units, for the code that measures and cuts text.
-- Strings that the code only compares (ids, codes, names) are native `String`s.
use Prim.Native.Char.{code}
use memoflow_api.Prelude.{
  ℕ, ◌+◌, ◌-◌, ◌/◌, ◌%◌, String, Bool, ◌||◌, ◌&&◌, true, false, List, [], ◌∷◌, ltb, leb, eqb,
  if◌then◌else◌,
}

abbrev pub Text : Type 0
Text = List ℕ

-- The code units of one code point: itself, or a surrogate pair.
abbrev pub unit_of : ℕ → Text → Text
unit_of c rest =
    if ltb c 65536
    then c ∷ rest
    else (55296 + (c - 65536) / 1024) ∷ (56320 + (c - 65536) % 1024) ∷ rest

abbrev pub units : String → Text
units String.[] = []
units (String.◌∷◌ c s) = unit_of (code c) (units s)

-- What `trim` removes and `\s` matches.
unfoldable pub is_space : ℕ → Bool
is_space c =
    (leb 9 c && leb c 13)
    || eqb c 32
    || eqb c 160
    || eqb c 0x1680
    || (leb 0x2000 c && leb c 0x200a)
    || eqb c 0x2028
    || eqb c 0x2029
    || eqb c 0x202f
    || eqb c 0x205f
    || eqb c 0x3000
    || eqb c 0xfeff

unfoldable pub trim_start : Text → Text
trim_start [] = []
trim_start (c ∷ t) = let rest = trim_start t in if is_space c then rest else c ∷ t

-- Drops a character that is followed only by what has been dropped.
abbrev pub put_back : ℕ → Text → Text
put_back c [] = if is_space c then [] else c ∷ []
put_back c (d ∷ t) = c ∷ d ∷ t

unfoldable pub trim_end : Text → Text
trim_end [] = []
trim_end (c ∷ t) = put_back c (trim_end t)

unfoldable pub trim : Text → Text
unfolding trim_start trim_end
trim t = trim_end (trim_start t)

-- `t === ''`
abbrev pub is_empty : Text → Bool
is_empty [] = true
is_empty (c ∷ t) = false
