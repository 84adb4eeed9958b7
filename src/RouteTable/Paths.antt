-- ===== src/RouteTable/Paths.antt =====
-- internal/routetable/routetable.go: the helpers on names and paths.
use nina.Prelude.{
  ℕ, Bool, ◌&&◌, ◌||◌, Option, none, some, List, [], ◌∷◌, ◌++◌, leb, ◌==◌, str_eq, if◌then◌else◌,
  Str, lit, split, has_prefix, cut_prefix, trim_suffix, contains,
}
use nina.Router.{param_name}

abbrev is_word : ℕ → Bool
is_word c = leb b'a' c && leb c b'z' || leb b'A' c && leb c b'Z' || leb b'0' c && leb c b'9'

-- The loop is over runes; a byte above ASCII stands for a rune of its own.
unfoldable pub sanitise : Str → Str
sanitise [] = []
sanitise (c ∷ s) = (if is_word c then c else b'_') ∷ sanitise s

unfoldable pub operation_id : Str → Str → Str
unfolding sanitise
operation_id backend upstream = sanitise backend ++ lit "_" ++ upstream

abbrev or_self : Str → Option Str → Str
or_self p none = p
or_self p (some rest) = b'/' ∷ rest

-- `p[len(prefix):]` keeps the slash that was matched after the prefix.
unfoldable pub strip_prefix : Str → Str → Str
unfolding trim_suffix cut_prefix
strip_prefix p prefix =
    if prefix == [] || prefix == lit "/"
    then p
    else if p == trim_suffix b'/' prefix
    then lit "/"
    else or_self p (cut_prefix p (trim_suffix b'/' prefix ++ lit "/"))

abbrev root_if_empty : Str → Str
root_if_empty [] = lit "/"
root_if_empty (c ∷ s) = c ∷ s

unfoldable pub join_path : Str → Str → Str
unfolding trim_suffix has_prefix
join_path prefix p =
    if p == [] || p == lit "/"
    then root_if_empty (trim_suffix b'/' prefix)
    else trim_suffix b'/' prefix ++ (if has_prefix p (lit "/") then p else lit "/" ++ p)

abbrev keep_param : Option Str → List Str → List Str
keep_param none names = names
keep_param (some n) names = n ∷ names

unfoldable pub params_of : List Str → List Str
unfolding param_name
params_of [] = []
params_of (seg ∷ segs) = keep_param (param_name seg) (params_of segs)

-- The set of template parameters, as a list.
unfoldable pub template_params : Str → List Str
unfolding params_of split
template_params p = params_of (split b'/' p)

-- The first parameter of the upstream path that the gateway path lacks.
unfoldable pub missing_param : List Str → List Str → Option Str
missing_param [] gw = none
missing_param (n ∷ up) gw = if contains gw n then missing_param up gw else some n
