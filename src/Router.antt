-- ===== src/Router.antt =====
-- internal/router/router.go. A node is a value, and Add gives the new tree; the maps of a node are
-- lists. Methods and templates are ASCII, where strings.ToUpper works byte by byte.
pub mod Shape
pub mod Adding
pub mod Walking
pub mod Matching
mod Scenarios
use nina.Prelude.Map.{Map, lookup, insert}
use nina.Prelude.{
  ℕ, ◌+◌, ◌-◌, ◌*◌, Bool, true, false, ◌&&◌, ◌||◌, Option, none, some, List, [], ◌∷◌, ◌++◌, map,
  leb, ltb, nat_beq, ◌==◌, str_eq, if◌then◌else◌, is_some, Str, lit, trim, split, join, to_upper,
  strip_last, same_str, sort_strings,
}

abbrev pub slash : ℕ
slash = b'/'

abbrev pub is_slash : ℕ → Bool
is_slash c = nat_beq c slash

abbrev unless_empty : Str → List Str
unless_empty [] = []
unless_empty (c ∷ s) = split slash (c ∷ s)

unfoldable pub split_path : Str → List Str
unfolding trim split
split_path p = unless_empty (trim is_slash p)

-- The name of a parameter segment such as {id}.
unfoldable pub param_name : Str → Option Str
unfolding strip_last
param_name [] = none
param_name (c ∷ s) = if nat_beq c b'{' then strip_last b'}' s else none

abbrev placeholder : Str → Str
placeholder s = if is_some (param_name s) then lit "{}" else s

unfoldable pub normalise : Str → Str
unfolding split_path param_name join
normalise template = lit "/" ++ join (lit "/") (map placeholder (split_path template))

pub record Param : Type 0 where
  pub name : Str
  pub value : Str

-- Params.Get
unfoldable pub get_param : Str → List Param → Option Str
get_param name [] = none
get_param name (kv ∷ p) = if kv.name == name then some kv.value else get_param name p

pub record RouteEntry (T : Type 0) : Type 0 where
  pub payload : T
  pub param_names : List Str

-- The handlers of a terminal node by method, with the sorted methods; `none` is the nil map.
pub record Handlers (T : Type 0) : Type 0 where
  pub by_method : Option (Map Str (RouteEntry T))
  pub methods : List Str

mutual
  pub data Node (T : Type 0) : Type 0 where
    node : Statics T → Wildcard T → Handlers T → Node T

  pub data Statics (T : Type 0) : Type 0 where
    no_static : Statics T
    static : Str → Node T → Statics T → Statics T

  pub data Wildcard (T : Type 0) : Type 0 where
    no_param : Wildcard T
    param : Node T → Wildcard T

pub record ConflictError : Type 0 where
  pub method : Str
  pub path : Str
  pub existing : Str

pub record Result (T : Type 0) : Type 0 where
  -- The payload and the parameters, where Found is true.
  pub found : Option (T × List Param)
  pub path_matched : Bool
  pub allow : List Str

pub record Router (T : Type 0) : Type 0 where
  pub root : Node T
  pub templates : Map Str Str

abbrev or_empty : Option Str → Str
or_empty none = []
or_empty (some s) = s

abbrev pub is_empty_seg : Str → Bool
is_empty_seg [] = true
is_empty_seg (c ∷ s) = false

module _ {T : Type 0} where
  abbrev pub entries : Option (Map Str (RouteEntry T)) → Map Str (RouteEntry T)
  entries none = []
  entries (some m) = m

  abbrev pub new_node : Node T
  new_node = node no_static no_param (record { by_method = none; methods = [] })

  abbrev pub handlers : Node T → Handlers T
  handlers (node ss w h) = h

  abbrev pub with_handlers : Handlers T → Node T → Node T
  with_handlers h' (node ss w h) = node ss w h'

  unfoldable pub static_child : Str → Statics T → Option (Node T)
  static_child seg no_static = none
  static_child seg (static k n ss) = if k == seg then some n else static_child seg ss

  unfoldable pub set_static : Str → Node T → Statics T → Statics T
  set_static seg n no_static = static seg n no_static
  set_static seg n (static k m ss) =
      if k == seg then static k n ss else static k m (set_static seg n ss)

  abbrev pub or_new : Option (Node T) → Node T
  or_new none = new_node
  or_new (some n) = n

  abbrev pub wildcard_child : Wildcard T → Option (Node T)
  wildcard_child no_param = none
  wildcard_child (param n) = some n

  -- The handlers with one more, or `none` if the method is taken.
  unfoldable pub register : Str → RouteEntry T → Handlers T → Option (Handlers T)
  unfolding lookup insert sort_strings
  register method e h =
      if is_some (lookup method (entries h.by_method))
      then none
      else some (record {
        by_method = some (insert method e (entries h.by_method));
        methods = sort_strings (h.methods ++ method ∷ []);
      })

  abbrev in_handlers : Node T → Option (Handlers T) → Option (Node T)
  in_handlers n none = none
  in_handlers n (some h) = some (with_handlers h n)

  abbrev in_static : Str → Statics T → Wildcard T → Handlers T → Option (Node T) → Option (Node T)
  in_static seg ss w h none = none
  in_static seg ss w h (some n) = some (node (set_static seg n ss) w h)

  abbrev in_param : Statics T → Handlers T → Option (Node T) → Option (Node T)
  in_param ss h none = none
  in_param ss h (some n) = some (node ss (param n) h)

  -- The loop of Add over the segments, and the registration at its end. `none` is a duplicate; the
  -- nodes on the way to one are there already, so nothing has changed then.
  unfoldable pub add_at : Str → T → List Str → List Str → Node T → Option (Node T)
  add_at method payload [] names n =
      in_handlers n
        (register method (record { payload = payload; param_names = names }) (handlers n))
  add_at method payload (seg ∷ segs) names (node ss w h) = elim (param_name seg) [
    | some name ↦
        in_param ss h (add_at method payload segs (names ++ name ∷ []) (or_new (wildcard_child w)))
    | none ↦ in_static seg ss w h (add_at method payload segs names (or_new (static_child seg ss)))
  ]

  -- What Add makes of the new tree, or of a duplicate.
  abbrev pub conclude : Str → Str → Router T → Option (Node T) → Router T × Option ConflictError
  conclude method template r none = (
    r,
    some (record {
      method = method;
      path = template;
      existing = or_empty (lookup (method ++ lit " " ++ normalise template) r.templates);
    }),
  )
  conclude method template r (some root') = (
    record {
      root = root';
      templates =
          insert (method ++ lit " " ++ normalise template) (method ++ lit " " ++ template)
            r.templates;
    },
    none,
  )

  unfoldable pub add : Str → Str → T → Router T → Router T × Option ConflictError
  add method template payload r =
      conclude (to_upper method) template r
        (add_at (to_upper method) payload (split_path template) [] r.root)

  -- A found node and the values on the way to it: the static child first, then the wildcard.
  abbrev first_found :
      Option (Node T × List Str) → Option (Node T × List Str) → Option (Node T × List Str)
  first_found none b = b
  first_found (some a) b = some a

  abbrev pub is_terminal : Handlers T → Bool
  is_terminal h = is_some h.by_method

  unfoldable pub walk : Node T → List Str → List Str → Option (Node T × List Str)
  walk n [] values = if is_terminal (handlers n) then some (n, values) else none
  walk (node ss w h) (seg ∷ segs) values =
      first_found (elim (static_child seg ss) [ none ↦ none | some child ↦ walk child segs values ])
        (elim (wildcard_child w) [
          | none ↦ none
          | some child ↦ if is_empty_seg seg then none else walk child segs (values ++ seg ∷ [])
        ])

  unfoldable pub empty_router : Router T
  empty_router = record { root = new_node; templates = [] }

abbrev pub hex_value : ℕ → Option ℕ
hex_value c =
    if leb b'0' c && leb c b'9'
    then some (c - b'0')
    else if leb b'a' c && leb c b'f'
    then some (c - b'a' + 10)
    else if leb b'A' c && leb c b'F'
    then some (c - b'A' + 10)
    else none

abbrev pub decode : Option ℕ → Option ℕ → Option Str → Option Str
decode (some hi) (some lo) (some rest) = some ((16 * hi + lo) ∷ rest)
decode _ _ _ = none

abbrev pub put : ℕ → Option Str → Option Str
put c none = none
put c (some s) = some (c ∷ s)

-- url.PathUnescape; `none` is its error
unfoldable pub path_unescape : Str → Option Str
path_unescape [] = some []
path_unescape (c ∷ []) = if nat_beq c b'%' then none else some (c ∷ [])
path_unescape (c ∷ d ∷ []) = if nat_beq c b'%' || nat_beq d b'%' then none else some (c ∷ d ∷ [])
path_unescape (c ∷ d ∷ e ∷ s) = elim (nat_beq c b'%') [
  | true ↦ decode (hex_value d) (hex_value e) (path_unescape s)
  | false ↦ put c (path_unescape (d ∷ e ∷ s))
]

abbrev or_raw : Str → Option Str → Str
or_raw v none = v
or_raw v (some s) = s

-- The loop that pairs the names of the matched route with the values.
unfoldable pub zip_params : List Str → List Str → List Param
unfolding path_unescape
zip_params names [] = []
zip_params [] (v ∷ vs) = []
zip_params (n ∷ ns) (v ∷ vs) =
    record { name = n; value = or_raw v (path_unescape v) } ∷ zip_params ns vs

module _ {T : Type 0} where
  -- The entry for a method; HEAD falls back to GET.
  unfoldable pub entry_for : Str → Map Str (RouteEntry T) → Option (RouteEntry T)
  unfolding lookup
  entry_for method m = elim (lookup method m) [
    | some e ↦ some e
    | none ↦ if method == lit "HEAD" then lookup (lit "GET") m else none
  ]

  abbrev pub with_params : List Str → Option (RouteEntry T) → Option (T × List Param)
  with_params values none = none
  with_params values (some e) = some (e.payload, zip_params e.param_names values)

  abbrev pub answer : Str → List Str → Handlers T → Map Str (RouteEntry T) → Result T
  answer method values h m = record {
    found = with_params values (entry_for (to_upper method) m);
    path_matched = true;
    allow = h.methods;
  }

  abbrev pub no_match : Result T
  no_match = record { found = none; path_matched = false; allow = [] }

  abbrev pub answer_or_miss :
      Str → List Str → Handlers T → Option (Map Str (RouteEntry T)) → Result T
  answer_or_miss method values h none = no_match
  answer_or_miss method values h (some m) = answer method values h m

  abbrev pub at_handlers : Str → List Str → Handlers T → Result T
  at_handlers method values h = answer_or_miss method values h h.by_method

  abbrev pub at_node : Str → Option (Node T × List Str) → Result T
  at_node method none = no_match
  at_node method (some (n, values)) = at_handlers method values (handlers n)

  unfoldable pub match : Str → Str → Router T → Result T
  match method escaped_path r = at_node method (walk r.root (split_path escaped_path) [])
