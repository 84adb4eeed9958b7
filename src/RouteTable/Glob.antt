-- ===== src/RouteTable/Glob.antt =====
-- path.Match of the standard library on ASCII, and the choice of operations by globs.
use nina.Prelude.{
  ℕ, zero, suc, Bool, true, false, not, ◌&&◌, ◌||◌, Option, none, some, List, [], ◌∷◌, leb, nat_beq,
  if◌then◌else◌, Str, length,
}

-- An element of a pattern; the ranges of a class are pairs of bounds.
pub data Token : Type 0 where
  star : Token
  any_char : Token
  class : Bool → List (ℕ × ℕ) → Token
  char : ℕ → Token

-- One bound of a range: a character, maybe escaped, with something after it.
abbrev bound_end : ℕ → Str → Option (ℕ × Str)
bound_end c [] = none
bound_end c (d ∷ s) = some (c, d ∷ s)

unfoldable pub bound : Str → Option (ℕ × Str)
bound [] = none
bound (c ∷ []) = none
bound (c ∷ d ∷ s) =
    if nat_beq c b'-' || nat_beq c b']'
    then none
    else if nat_beq c b'\\'
    then bound_end d s
    else bound_end c (d ∷ s)

abbrev range_to : ℕ → ℕ → Option (ℕ × Str) → Option ((ℕ × ℕ) × Str)
range_to lo hi none = none
range_to lo hi (some (h, s)) = some ((lo, h), s)

abbrev range_from : Option (ℕ × Str) → Option ((ℕ × ℕ) × Str)
range_from none = none
range_from (some (lo, [])) = none
range_from (some (lo, c ∷ s)) =
    if nat_beq c b'-' then range_to lo lo (bound s) else some ((lo, lo), c ∷ s)

abbrev add_range : ℕ × ℕ → Option (List (ℕ × ℕ) × Str) → Option (List (ℕ × ℕ) × Str)
add_range r none = none
add_range r (some (rs, s)) = some (r ∷ rs, s)

abbrev closes : Bool → Str → Option Str
closes false s = none
closes true [] = none
closes true (c ∷ s) = if nat_beq c b']' then some s else none

-- The ranges of a class up to its bracket, which cannot come first.
unfoldable pub ranges : ℕ → Bool → Str → Option (List (ℕ × ℕ) × Str)
unfolding bound
ranges zero some_yet s = none
ranges (suc f) some_yet s = elim (closes some_yet s) [
  | some rest ↦ some ([], rest)
  | none ↦ elim (range_from (bound s)) [
    | none ↦ none
    | some (r, rest) ↦ add_range r (ranges f true rest)
  ]
]

abbrev class_of : Bool → Option (List (ℕ × ℕ) × Str) → Option (Token × Str)
class_of neg none = none
class_of neg (some (rs, s)) = some (class neg rs, s)

abbrev parse_class : ℕ → Str → Option (Token × Str)
parse_class f [] = none
parse_class f (c ∷ s) =
    if nat_beq c b'^'
    then class_of true (ranges f false s)
    else class_of false (ranges f false (c ∷ s))

abbrev escaped : Str → Option (Token × Str)
escaped [] = none
escaped (c ∷ s) = some (char c, s)

unfoldable pub token : ℕ → ℕ → Str → Option (Token × Str)
unfolding ranges
token f c s =
    if nat_beq c b'*'
    then some (star, s)
    else if nat_beq c b'?'
    then some (any_char, s)
    else if nat_beq c b'['
    then parse_class f s
    else if nat_beq c b'\\'
    then escaped s
    else some (char c, s)

abbrev add_token : Token → Option (List Token) → Option (List Token)
add_token t none = none
add_token t (some ts) = some (t ∷ ts)

-- A pattern's elements; `none` is ErrBadPattern. Every element takes at least one byte.
unfoldable pub tokens : ℕ → Str → Option (List Token)
unfolding token
tokens f [] = some []
tokens zero (c ∷ s) = none
tokens (suc f) (c ∷ s) = elim (token (suc f) c s) [
  | none ↦ none
  | some (t, rest) ↦ add_token t (tokens f rest)
]

abbrev in_ranges : List (ℕ × ℕ) → ℕ → Bool
in_ranges [] c = false
in_ranges ((lo, hi) ∷ rs) c = leb lo c && leb c hi || in_ranges rs c

-- Whether one element other than a star matches a character; a class can match a slash.
abbrev matches_char : Token → ℕ → Bool
matches_char star c = false
matches_char any_char c = not (nat_beq c b'/')
matches_char (class neg rs) c = if neg then not (in_ranges rs c) else in_ranges rs c
matches_char (char d) c = nat_beq c d

abbrev is_star : Token → Bool
is_star star = true
is_star _ = false

-- A star matches any run of characters without a slash.
unfoldable pub matches : List Token → Str → Bool
matches [] [] = true
matches [] (c ∷ s) = false
matches (t ∷ ts) [] = is_star t && matches ts []
matches (t ∷ ts) (c ∷ s) = elim (is_star t) [
  | true ↦ elim (matches ts (c ∷ s)) [
    | true ↦ true
    | false ↦ not (nat_beq c b'/') && matches (t ∷ ts) s
  ]
  | false ↦ matches_char t c && matches ts s
]

abbrev match_tokens : Option (List Token) → Str → Option Bool
match_tokens none name = none
match_tokens (some ts) name = some (matches ts name)

-- path.Match; `none` is its error. Go gives each star the leftmost text after which the chunk behind
-- it matches and tries no other, where `matches` tries all: they differ for no pattern but one in
-- which a class may match the slash that a star may not.
unfoldable pub path_match : Str → Str → Option Bool
unfolding tokens matches
path_match pattern name = match_tokens (tokens (length pattern) pattern) name

-- The loops of `selects`: whether one of the patterns matches, in order; `none` is a bad pattern.
abbrev or_later : Option Bool → Option Bool → Option Bool
or_later none later = none
or_later (some true) later = some true
or_later (some false) later = later

unfoldable pub some_match : Str → List Str → Option Bool
some_match id [] = some false
some_match id (g ∷ gs) = or_later (path_match g id) (some_match id gs)

abbrev included : List Str → Option Bool → Option Bool
included [] found = some true
included (g ∷ gs) found = found

abbrev unless_excluded : Option Bool → Option Bool
unless_excluded none = none
unless_excluded (some b) = some (not b)

abbrev then_exclude : Option Bool → Option Bool → Option Bool
then_exclude none excluded = none
then_exclude (some false) excluded = some false
then_exclude (some true) excluded = unless_excluded excluded

unfoldable pub selects : Str → List Str → List Str → Option Bool
selects id include exclude =
    then_exclude (included include (some_match id include)) (some_match id exclude)
