-- ===== src/Runtime/Substitution.antt =====
-- internal/runtime/build.go: substituteParams, with the escaping of Go's net/url that it calls.
pub mod Segments
mod Scenarios
use nina.Prelude.{
  ℕ, zero, suc, ◌+◌, ◌-◌, ◌*◌, ◌/◌, ◌%◌, ◌<◌, ◌≡◌, Bool, true, false, not, ◌&&◌, ◌||◌, Option, none,
  some, List, [], ◌∷◌, ◌++◌, ltb, leb, nat_beq, nat_eq, if◌then◌else◌, contains, Str, lit, split,
  join, map,
}
use nina.Router.{Param, get_param, param_name}

abbrev pub hex_digit : ℕ → ℕ
hex_digit n = if ltb n 10 then b'0' + n else b'A' + (n - 10)

abbrev pub is_unreserved : ℕ → Bool
is_unreserved c =
    leb b'a' c && leb c b'z'
    || leb b'A' c && leb c b'Z'
    || leb b'0' c && leb c b'9'
    || contains (b'-' ∷ b'_' ∷ b'.' ∷ b'~' ∷ []) c

-- What stays as it is in one segment of a path.
abbrev pub segment_safe : ℕ → Bool
segment_safe c = is_unreserved c || contains (b'$' ∷ b'&' ∷ b'+' ∷ b':' ∷ b'=' ∷ b'@' ∷ []) c

unfoldable pub escape : (ℕ → Bool) → Str → Str
escape safe [] = []
escape safe (c ∷ s) =
    let rest = escape safe s in
    if safe c then c ∷ rest else b'%' ∷ hex_digit (c / 16) ∷ hex_digit (c % 16) ∷ rest

-- url.PathEscape
unfoldable pub path_escape : Str → Str
path_escape s = escape segment_safe s

abbrev pub escaped_or : Str → Option Str → Str
escaped_or seg none = seg
escaped_or seg (some v) = path_escape v

abbrev pub of_name : Str → List Param → Option Str → Str
of_name seg params none = seg
of_name seg params (some name) = escaped_or seg (get_param name params)

-- A segment of the template with its parameter's value.
unfoldable pub fill : List Param → Str → Str
fill params seg = of_name seg params (param_name seg)

unfoldable pub fill_all : List Param → List Str → List Str
fill_all params [] = []
fill_all params (seg ∷ segs) = fill params seg ∷ fill_all params segs

abbrev pub root_if_empty : Str → Str
root_if_empty [] = lit "/"
root_if_empty (c ∷ s) = c ∷ s

unfoldable pub substitute_params : Str → List Param → Str
substitute_params tmpl params = root_if_empty (join (lit "/") (fill_all params (split b'/' tmpl)))
