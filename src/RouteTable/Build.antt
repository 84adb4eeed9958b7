-- ===== src/RouteTable/Build.antt =====
-- internal/routetable/routetable.go: Build. A `*config.Backend` is the backend's configuration, an
-- override whose middleware is null in the configuration has `none`, and the merger is an argument
-- that gives the rendered document or its error.
use nina.Prelude.Map.{Map, lookup, insert}
use nina.Prelude.{
  ℕ, zero, suc, ◌+◌, Bool, true, false, ◌||◌, Option, none, some, List, [], ◌∷◌, ◌++◌, nat_beq,
  ◌==◌, str_eq, if◌then◌else◌, Str, lit, contains, length, str_lt, sort_by, sort_strings,
}
use nina.RouteTable.Paths.{operation_id, strip_prefix, join_path, template_params, missing_param}
use nina.RouteTable.Glob.{selects}

-- oas.Operation, as far as Build reads it.
pub record Operation : Type 0 where
  pub path : Str
  pub method : Str
  pub op_id : Str
  pub tags : List Str

pub record Backend : Type 0 where
  pub name : Str
  pub namespace : Str
  pub strip : Str
  pub timeout : ℕ

pub record Override : Type 0 where
  pub path : Str
  pub middleware : Option (List Str)
  pub timeout : ℕ
  pub disabled : Bool

pub record Expose : Type 0 where
  pub backend : Str
  pub prefix : Str
  pub include : List Str
  pub exclude : List Str
  pub middleware : List Str
  pub overrides : Map Str Override

pub record Config : Type 0 where
  pub backends : List Backend
  pub expose : List Expose
  pub default_timeout : ℕ
  pub hide_tags : List Str

pub record Route : Type 0 where
  pub method : Str
  pub gateway_path : Str
  pub id : Str
  pub backend : Backend
  pub upstream_path : Str
  pub upstream_id : Str
  pub middleware : List Str
  pub timeout : ℕ
  pub allowed_methods : List Str
  pub hidden : Bool

-- oas.ExposedOp: what the merger publishes.
pub record ExposedOp : Type 0 where
  pub op : Operation
  pub backend : Backend
  pub gateway_path : Str
  pub id : Str

pub data BuildError : Type 0 where
  no_backend : ℕ → Str → BuildError
  no_spec : ℕ → Str → BuildError
  bad_pattern : ℕ → Str → BuildError
  none_selected : ℕ → Str → ℕ → BuildError
  -- The route and the parameter that its gateway path does not provide.
  param_missing : Route → Str → BuildError
  -- The method, the path and the two claimants.
  collision : Str → Str → Str → Str → BuildError
  merge_failed : BuildError

pub data Result (A : Type 0) : Type 0 where
  ok : A → Result A
  err : BuildError → Result A

infixl 5 ◌>>=◌
abbrev pub ◌>>=◌ : {A B : Type 0} → Result A → (A → Result B) → Result B
ok a >>= k = k a
err e >>= k = err e

-- SpecPublish.Hidden
unfoldable pub is_hidden : List Str → List Str → Bool
is_hidden hide_tags [] = false
is_hidden hide_tags (t ∷ ts) = contains hide_tags t || is_hidden hide_tags ts

-- Config.BackendByName
unfoldable pub backend_by_name : Str → List Backend → Option Backend
backend_by_name name [] = none
backend_by_name name (b ∷ bs) = if b.name == name then some b else backend_by_name name bs

-- Duration.Or
abbrev pub or_duration : ℕ → ℕ → ℕ
or_duration d default = if nat_beq d 0 then default else d

abbrev pub no_override : Override
no_override = record { path = []; middleware = none; timeout = 0; disabled = false }

abbrev pub override_of : Option Override → Override
override_of none = no_override
override_of (some ov) = ov

abbrev pub replace : {A : Type 0} → Option A → A → A
replace none a = a
replace (some b) a = b

-- The route of an operation under an expose entry, with the entry's override for it.
unfoldable pub route_of : Config → Expose → Backend → Operation → Override → Route
route_of cfg e b op ov = record {
  method = op.method;
  gateway_path =
      if ov.path == [] then join_path e.prefix (strip_prefix op.path b.strip) else ov.path;
  id = operation_id b.name op.op_id;
  backend = b;
  upstream_path = op.path;
  upstream_id = op.op_id;
  middleware = replace ov.middleware e.middleware;
  timeout = or_duration ov.timeout (or_duration b.timeout cfg.default_timeout);
  allowed_methods = [];
  hidden = is_hidden cfg.hide_tags op.tags;
}

unfoldable pub exposed_of : Operation → Route → ExposedOp
exposed_of op r = record { op = op; backend = r.backend; gateway_path = r.gateway_path; id = r.id }

-- The two lists that the loops append to, here with the newest entry last.
pub record Acc : Type 0 where
  pub routes : List Route
  pub exposed : List ExposedOp

abbrev pub append_route : Operation → Route → Acc → Acc
append_route op r acc = record {
  routes = acc.routes ++ r ∷ [];
  exposed = if r.hidden then acc.exposed else acc.exposed ++ exposed_of op r ∷ [];
}

-- One round of the loop over the operations, after the globs: the lists and `matched`.
unfoldable pub take_op : Config → Expose → Backend → Operation → Bool → Acc × ℕ → Acc × ℕ
take_op cfg e b op false s = s
take_op cfg e b op true (acc, matched) =
    let ov = override_of (lookup op.op_id e.overrides) in
    if ov.disabled
    then (acc, matched)
    else (append_route op (route_of cfg e b op ov) acc, matched + 1)

abbrev pub selected : ℕ → Expose → Operation → Result Bool
selected i e op = elim (selects op.op_id e.include e.exclude) [
  | none ↦ err (bad_pattern i e.backend)
  | some chosen ↦ ok chosen
]

unfoldable pub take_ops :
    Config → ℕ → Expose → Backend → List Operation → Acc × ℕ → Result (Acc × ℕ)
take_ops cfg i e b [] s = ok s
take_ops cfg i e b (op ∷ ops) s = do
  chosen ← selected i e op
  take_ops cfg i e b ops (take_op cfg e b op chosen s)

abbrev pub found : {A : Type 0} → BuildError → Option A → Result A
found x none = err x
found x (some a) = ok a

abbrev pub some_matched : ℕ → Expose → List Operation → Acc × ℕ → Result Acc
some_matched i e ops (acc, zero) = err (none_selected i e.backend (length ops))
some_matched i e ops (acc, suc n) = ok acc

unfoldable pub take_expose : Config → Map Str (List Operation) → ℕ → Expose → Acc → Result Acc
take_expose cfg specs i e acc = do
  b ← found (no_backend i e.backend) (backend_by_name e.backend cfg.backends)
  ops ← found (no_spec i e.backend) (lookup e.backend specs)
  s ← take_ops cfg i e b ops (acc, 0)
  some_matched i e ops s

unfoldable pub take_exposes : Config → Map Str (List Operation) → ℕ → List Expose → Acc → Result Acc
take_exposes cfg specs i [] acc = ok acc
take_exposes cfg specs i (e ∷ es) acc = do
  acc' ← take_expose cfg specs i e acc
  take_exposes cfg specs (suc i) es acc'

abbrev pub provided : Route → Option Str → Result (Unit {0})
provided r none = ok tt
provided r (some n) = err (param_missing r n)

-- The order in which a map of names is ranged over decides only which missing one is reported.
unfoldable pub check_params : Route → Result (Unit {0})
check_params r =
    provided r (missing_param (template_params r.upstream_path) (template_params r.gateway_path))

unfoldable pub check_all_params : List Route → Result (Unit {0})
check_all_params [] = ok tt
check_all_params (r ∷ rs) = check_params r >>= λ _. check_all_params rs

abbrev pub slot : Route → Str
slot r = r.method ++ lit " " ++ r.gateway_path

abbrev pub claimant : Route → Str
claimant r = r.backend.name ++ lit "." ++ r.upstream_id

unfoldable pub claim_slots : Map Str Route → List Route → Result (Unit {0})
claim_slots claimed [] = ok tt
claim_slots claimed (r ∷ rs) = elim (lookup (slot r) claimed) [
  | some prev ↦ err (collision r.method r.gateway_path (claimant prev) (claimant r))
  | none ↦ claim_slots (insert (slot r) r claimed) rs
]

unfoldable pub route_less : Route → Route → Bool
route_less a b =
    if a.gateway_path == b.gateway_path
    then str_lt a.method b.method
    else str_lt a.gateway_path b.gateway_path

-- The methods that are served at a path.
unfoldable pub methods_at : Str → List Route → List Str
methods_at path [] = []
methods_at path (r ∷ rs) =
    if r.gateway_path == path then r.method ∷ methods_at path rs else methods_at path rs

unfoldable pub allow_all : List Route → List Route → List Route
allow_all table [] = []
allow_all table (r ∷ rs) =
    record r { allowed_methods = sort_strings (methods_at r.gateway_path table) }
    ∷ allow_all table rs

pub record Table (D : Type 0) : Type 0 where
  pub routes : List Route
  -- The operations that the merger was given, and the document that it made of them.
  pub published : List ExposedOp
  pub spec : D

abbrev pub empty_acc : Acc
empty_acc = record { routes = []; exposed = [] }

abbrev pub finish : {D : Type 0} → Acc → D → Table D
finish acc spec =
    let sorted = sort_by route_less acc.routes in
    record { routes = allow_all sorted sorted; published = acc.exposed; spec = spec }

unfoldable pub build :
    {D : Type 0}
    → (List ExposedOp → Option D)
    → Config
    → Map Str (List Operation)
    → Result (Table D)
build merge cfg specs = do
  acc ← take_exposes cfg specs 0 cfg.expose empty_acc
  _ ← check_all_params acc.routes
  _ ← claim_slots [] acc.routes
  spec ← found merge_failed (merge acc.exposed)
  ok (finish acc spec)
