-- ===== src/Mw/ApiKey.antt =====
-- internal/mw/apikey/apikey.go: New without its reading of files, and the handler. The hash is an
-- argument; the metrics and the yaml node of the security scheme are left out.
pub mod Passing
pub mod Access
pub mod Admission
use nina.Prelude.{
  ℕ, Bool, true, false, not, ◌&&◌, ◌||◌, Option, none, some, List, [], ◌∷◌, ◌++◌, if◌then◌else◌,
  Str, lit, str_eq, ◌==◌, filter, contains, join,
}
use nina.Prelude.Map.{Map, lookup, insert, remove}
use nina.Http.{Header, get, set_header, del, first_value}
use nina.Http.Writing.{Action}
use nina.Reqctx.{Info, Request}
use nina.Httperr.{Problem, problem, Rendering, write_problem}
use nina.Serving.{returned, Ran, Handler}

pub record Settings : Type 0 where
  pub loc : Str
  pub name : Str
  pub keys : Map Str Str
  pub scopes : Map Str (List Str)
  pub required_scopes : List Str
  pub forward_consumer_header : Str
  pub strip_credential : Option Bool

pub data NewError : Type 0 where
  bad_loc no_keys : NewError
  keys_file : NewError
  empty_key : Str → NewError
  shared_key : Str → Str → NewError

pub record Instance : Type 0 where
  pub set : Settings
  pub strip : Bool
  pub by_hash : Map Str Str

pub data Made (A : Type 0) : Type 0 where
  made : A → Made A
  refused : NewError → Made A

-- The keys of the file, over those of the settings.
unfoldable pub merge_keys : Map Str Str → Map Str Str → Map Str Str
merge_keys [] keys = keys
merge_keys ((consumer, k) ∷ rest) keys = merge_keys rest (insert consumer k keys)

abbrev pub strips : Option Bool → Bool
strips none = true
strips (some b) = b

module _ (hash : Str → Str) where
  -- The loop over the keys, with the index so far.
  unfoldable pub index_keys : Map Str Str → Map Str Str → Made (Map Str Str)
  index_keys [] by_hash = made by_hash
  index_keys ((consumer, k) ∷ rest) by_hash =
      let indexed = index_keys rest (insert (hash k) consumer by_hash) in
      if k == [] then refused (empty_key consumer) else elim (lookup (hash k) by_hash) [
        | some prev ↦ refused (shared_key prev consumer)
        | none ↦ indexed
      ]

  abbrev pub with_index : Settings → Made (Map Str Str) → Made Instance
  with_index s (refused e) = refused e
  with_index s (made by_hash) =
      made (record { set = s; strip = strips s.strip_credential; by_hash = by_hash })

  abbrev pub none_or : Settings → Map Str Str → Made Instance
  none_or s [] = refused no_keys
  none_or s (k ∷ ks) = with_index s (index_keys (k ∷ ks) [])

  abbrev of_keys : Settings → Made Instance
  of_keys s = none_or s s.keys

  -- New, with what loadKeysFile gives: no file is named, an error, or the keys of the file.
  abbrev with_file : Settings → Option (Option (Map Str Str)) → Made Instance
  with_file s none = of_keys s
  with_file s (some none) = refused keys_file
  with_file s (some (some loaded)) = of_keys (record s { keys = merge_keys loaded s.keys })

  unfoldable pub new_api_key : Settings → Option (Option (Map Str Str)) → Made Instance
  new_api_key s file =
      if not (s.loc == lit "header" || s.loc == lit "query")
      then refused bad_loc
      else with_file s file

-- missingScopes
unfoldable pub missing_scopes : List Str → List Str → List Str
missing_scopes have want = filter (λ s. not (contains have s)) want

abbrev values_or_none : Option (List Str) → List Str
values_or_none none = []
values_or_none (some vs) = vs

-- The key that a request presents.
abbrev pub presented : Instance → Request → Str
presented i r =
    if i.set.loc == lit "header"
    then get i.set.name r.header
    else first_value (values_or_none (lookup i.set.name r.query))

abbrev pub scopes_of : Instance → Str → List Str
scopes_of i consumer = values_or_none (lookup consumer i.set.scopes)

abbrev pub with_consumer : Instance → Str → Info → Info
with_consumer i consumer info = record info {
  consumer = consumer;
  subject = consumer;
  scopes = scopes_of i consumer;
}

abbrev pub stripped : Instance → Request → Request
stripped i r =
    if not i.strip
    then r
    else if i.set.loc == lit "header"
    then record r { header = del i.set.name r.header }
    else record r { query = remove i.set.name r.query }

abbrev named : Instance → Str → Request → Request
named i consumer r =
    if i.set.forward_consumer_header == []
    then r
    else record r { header = set_header i.set.forward_consumer_header consumer r.header }

-- The request that the handler inside is given.
abbrev pub forwarded : Instance → Str → Request → Request
forwarded i consumer r = named i consumer (stripped i r)

module _ (hash : Str → Str) (rend : Rendering) {S : Type 0} where
  abbrev pub reject : Info → S → ℕ → Str → Ran S
  reject info s status detail = record {
    actions = write_problem rend (some info) (problem status (lit "Authentication failed") detail);
    outcome = returned;
    info = info;
    state = s;
  }

  -- The check of the scopes, by those that are missing.
  abbrev pub check_scopes : Instance → Handler S → ℕ → Request → Info → S → Str → List Str → Ran S
  check_scopes i next now r info s consumer [] =
      next now (forwarded i consumer r) (with_consumer i consumer info) s
  check_scopes i next now r info s consumer (m ∷ ms) =
      reject info s 403 (lit "consumer is missing scope(s): " ++ join (lit ", ") (m ∷ ms))

  abbrev pub serve_consumer : Instance → Handler S → ℕ → Request → Info → S → Option Str → Ran S
  serve_consumer i next now r info s none = reject info s 401 (lit "the API key is not recognised")
  serve_consumer i next now r info s (some consumer) =
      check_scopes i next now r info s consumer
        (missing_scopes (scopes_of i consumer) i.set.required_scopes)

  -- serve
  unfoldable pub api_key : Instance → Handler S → Handler S
  api_key i next now r info s =
      if presented i r == []
      then reject info s 401 (lit "an API key is required")
      else serve_consumer i next now r info s (lookup (hash (presented i r)) i.by_hash)
