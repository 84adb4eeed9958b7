-- ===== src/Prelude/Text.antt =====
-- Go strings as lists of bytes, and the functions of package strings that the code calls.
use Prim.Native.Nat.{ℕ, ◌+◌, ◌-◌}
use Prim.Native.Char.{code}
use Prim.Native.String.{String}
use mathlib.Core.Path.{◌≡◌, refl}
use mathlib.Core.Logic.{◌↔◌}
use mathlib.Core.Bool.{Bool, true, false, ◌&&◌, ◌||◌}
use mathlib.Core.List.{List, [], ◌∷◌, ◌++◌, map}
use mathlib.Core.Option.{Option, none, some}
use native.Mathlib.Omega.{arith}
use nina.Prelude.Tests.{if◌then◌else◌, Eq, nat_eq, nat_beq, ltb, leb}

-- A byte is a number; the literals of the code are ASCII.
abbrev pub Str : Type 0
Str = List ℕ

abbrev pub codes : String → Str
codes String.[] = []
codes (String.◌∷◌ c s) = code c ∷ codes s

-- A string literal. It is shut, so that proofs compare it by `str_eq` alone.
unfoldable pub lit : String → Str
lit s = codes s

unfoldable pub same_str : Str → Str → Bool
same_str [] [] = true
same_str [] (b ∷ t) = false
same_str (a ∷ s) [] = false
same_str (a ∷ s) (b ∷ t) = nat_beq a b && same_str s t

pub same_str_iff : (s t : Str) → (same_str s t ≡ true) ↔ (s ≡ t)
unfolding same_str
same_str_iff [] [] = ground arith
same_str_iff [] (b ∷ t) = ground arith
same_str_iff (a ∷ s) [] = ground arith
same_str_iff (a ∷ s) (b ∷ t) = ground (arith, same_str_iff s t)

instance abbrev pub str_eq : Eq Str
str_eq = record { same = same_str; same_iff = same_str_iff }

pub same_str_refl : (s : Str) → same_str s s ≡ true
same_str_refl s = (same_str_iff s s).1 refl

-- strings.HasPrefix
unfoldable pub has_prefix : Str → Str → Bool
has_prefix s [] = true
has_prefix [] (b ∷ t) = false
has_prefix (a ∷ s) (b ∷ t) = nat_beq a b && has_prefix s t

-- strings.TrimPrefix, where the prefix is there.
unfoldable pub cut_prefix : Str → Str → Option Str
cut_prefix s [] = some s
cut_prefix [] (b ∷ t) = none
cut_prefix (a ∷ s) (b ∷ t) = if nat_beq a b then cut_prefix s t else none

-- The text before its last byte, where that is `b`.
unfoldable pub strip_last : ℕ → Str → Option Str
strip_last b [] = none
strip_last b (a ∷ []) = if nat_beq a b then some [] else none
strip_last b (a ∷ c ∷ s) = elim (strip_last b (c ∷ s)) [ none ↦ none | some r ↦ some (a ∷ r) ]

-- strings.TrimSuffix, for a suffix of one byte.
unfoldable pub trim_suffix : ℕ → Str → Str
unfolding strip_last
trim_suffix b s = elim (strip_last b s) [ none ↦ s | some r ↦ r ]

-- strings.TrimLeft and strings.TrimRight, for a cutset given as a test.
unfoldable pub trim_left : (ℕ → Bool) → Str → Str
trim_left p [] = []
trim_left p (a ∷ s) = if p a then trim_left p s else a ∷ s

abbrev keep_unless : Bool → ℕ → Str → Str
keep_unless true a [] = []
keep_unless t a r = a ∷ r

unfoldable pub trim_right : (ℕ → Bool) → Str → Str
trim_right p [] = []
trim_right p (a ∷ s) = keep_unless (p a) a (trim_right p s)

unfoldable pub trim : (ℕ → Bool) → Str → Str
unfolding trim_left trim_right
trim p s = trim_right p (trim_left p s)

abbrev pub is_space : ℕ → Bool
is_space c = nat_beq c 32 || leb 9 c && leb c 13

-- strings.TrimSpace, on ASCII
unfoldable pub trim_space : Str → Str
unfolding trim
trim_space s = trim is_space s

abbrev pub onto_first : ℕ → List Str → List Str
onto_first a [] = (a ∷ []) ∷ []
onto_first a (p ∷ ps) = (a ∷ p) ∷ ps

-- strings.Split, at one byte
unfoldable pub split : ℕ → Str → List Str
split b [] = [] ∷ []
split b (a ∷ s) = let rest = split b s in if nat_beq a b then [] ∷ rest else onto_first a rest

-- strings.Join
unfoldable pub join : Str → List Str → Str
join sep [] = []
join sep (p ∷ []) = p
join sep (p ∷ q ∷ ps) = p ++ sep ++ join sep (q ∷ ps)

abbrev pub upper : ℕ → ℕ
upper c = if leb b'a' c && leb c b'z' then c - 32 else c

abbrev pub lower : ℕ → ℕ
lower c = if leb b'A' c && leb c b'Z' then c + 32 else c

-- strings.ToUpper and strings.ToLower, on ASCII
unfoldable pub to_upper : Str → Str
to_upper s = map upper s

unfoldable pub to_lower : Str → Str
to_lower s = map lower s

-- strings.Cut at one byte: the parts before and after it, and whether it was there
unfoldable pub cut : ℕ → Str → Str × Str × Bool
cut b [] = ([], [], false)
cut b (a ∷ s) =
    let (before, after, found) = cut b s in
    if nat_beq a b then ([], s, true) else (a ∷ before, after, found)

-- Go's `<` on strings
unfoldable pub str_lt : Str → Str → Bool
str_lt s [] = false
str_lt [] (b ∷ t) = true
str_lt (a ∷ s) (b ∷ t) = ltb a b || nat_beq a b && str_lt s t

module _ {ℓ} {A : Type ℓ} (less : A → A → Bool) where
  unfoldable pub insert_by : A → List A → List A
  insert_by x [] = x ∷ []
  insert_by x (y ∷ ys) = if less y x then y ∷ insert_by x ys else x ∷ y ∷ ys

  -- sort.SliceStable: an element is put before the first one that is not less.
  unfoldable pub sort_by : List A → List A
  unfolding insert_by
  sort_by [] = []
  sort_by (x ∷ xs) = insert_by x (sort_by xs)

-- sort.Strings
unfoldable pub sort_strings : List Str → List Str
unfolding sort_by str_lt
sort_strings ss = sort_by str_lt ss
