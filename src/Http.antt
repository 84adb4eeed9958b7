-- ===== src/Http.antt =====
-- What the gateway uses of Go's net/http header maps: a key is stored in its canonical form, and a
-- header that is not there has no values.
pub mod Writing
use nina.Prelude.Map.{Map, lookup, insert, remove, lookup-insert, lookup-remove}
use nina.Prelude.{
  ℕ, Bool, true, ◌&&◌, ◌||◌, Option, none, some, List, [], ◌∷◌, ◌++◌, ◌≡◌, arith, leb, nat_beq,
  nat_eq, ◌==◌, if◌then◌else◌, all, contains, Str, str_eq, upper, lower, map, same_str_refl, false,
}

abbrev pub Header : Type 0
Header = Map Str (List Str)

-- A byte of a header name.
abbrev is_token : ℕ → Bool
is_token c =
    leb b'a' c && leb c b'z'
    || leb b'A' c && leb c b'Z'
    || leb b'0' c && leb c b'9'
    || contains
        (b'!' ∷ b'#' ∷ b'$' ∷ b'%' ∷ b'&' ∷ 39 ∷ b'*' ∷ b'+' ∷ b'-' ∷ b'.' ∷ b'^' ∷ b'_' ∷ b'`'
          ∷ b'|' ∷ b'~' ∷ [])
        c

-- Upper case at the start and after a dash, lower case elsewhere.
unfoldable pub title : Bool → Str → Str
title start [] = []
title start (c ∷ s) = (if start then upper c else lower c) ∷ title (nat_beq c b'-') s

-- textproto.CanonicalMIMEHeaderKey
unfoldable pub canonical : Str → Str
unfolding title
canonical name = if all is_token name then title true name else name

abbrev pub some_values : Option (List Str) → List Str
some_values none = []
some_values (some vs) = vs

unfoldable pub values : Str → Header → List Str
values name h = some_values (lookup (canonical name) h)

abbrev pub first_value : List Str → Str
first_value [] = []
first_value (v ∷ vs) = v

unfoldable pub get : Str → Header → Str
unfolding values
get name h = first_value (values name h)

unfoldable pub set_header : Str → Str → Header → Header
set_header name v h = insert (canonical name) (v ∷ []) h

unfoldable pub add_header : Str → Str → Header → Header
unfolding values
add_header name v h = insert (canonical name) (values name h ++ v ∷ []) h

unfoldable pub del : Str → Header → Header
del name h = remove (canonical name) h

unfoldable pub del_all : List Str → Header → Header
unfolding del
del_all [] h = h
del_all (n ∷ ns) h = del_all ns (del n h)

pub lookup-del_all :
    (names : List Str) (key : Str) (h : Header)
    → lookup key (del_all names h)
      ≡ (if contains (map canonical names) key then none else lookup key h)
unfolding del_all
lookup-del_all [] key h = ground arith
lookup-del_all (n ∷ names) key h =
    ground
      (arith, lookup-del_all names key (remove (canonical n) h), lookup-remove (canonical n) key h)

pub lookup-set_header :
    (name v key : Str) (h : Header)
    → lookup key (set_header name v h)
      ≡ (if canonical name == key then some (v ∷ []) else lookup key h)
unfolding set_header
lookup-set_header name v key h = lookup-insert (canonical name) key (v ∷ []) h

pub get-del : (name : Str) (h : Header) → get name (del name h) ≡ []
unfolding get values del
get-del name h =
    ground
      (arith, lookup-remove (canonical name) (canonical name) h, same_str_refl (canonical name))

pub get-set_header : (name v : Str) (h : Header) → get name (set_header name v h) ≡ v
unfolding get values set_header
get-set_header name v h = ground (
  arith,
  lookup-insert (canonical name) (canonical name) (v ∷ []) h,
  same_str_refl (canonical name),
)

pub get-del_other :
    (name other : Str) (h : Header)
    → canonical name == canonical other ≡ false
    → get other (del name h) ≡ get other h
unfolding get values del
get-del_other name other h n = ground (arith, lookup-remove (canonical name) (canonical other) h, n)

pub get-set_header_other :
    (name other v : Str) (h : Header)
    → canonical name == canonical other ≡ false
    → get other (set_header name v h) ≡ get other h
unfolding get values set_header
get-set_header_other name other v h n =
    ground (arith, lookup-insert (canonical name) (canonical other) (v ∷ []) h, n)

pub get-add_header_other :
    (name other v : Str) (h : Header)
    → canonical name == canonical other ≡ false
    → get other (add_header name v h) ≡ get other h
unfolding get values add_header
get-add_header_other name other v h n =
    ground (arith, lookup-insert (canonical name) (canonical other) (values name h ++ v ∷ []) h, n)
