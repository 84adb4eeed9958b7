-- ===== src/Mw/Headers.antt =====
-- internal/mw/headers/headers.go. The rules of a map are a list, in the order in which the loop visits
-- them, which Go does not fix.
pub mod Rules
use nina.Prelude.{ℕ, Bool, true, false, ◌&&◌, List, [], ◌∷◌, ◌++◌, if◌then◌else◌, Str}
use nina.Http.{Header, set_header, add_header, del_all}
use nina.Http.Writing.{Action, change, write_header, write}
use nina.Reqctx.{Info, Request}
use nina.Serving.{Ran, Handler}

pub record HeaderRules : Type 0 where
  pub set : List (Str × Str)
  pub add : List (Str × Str)
  pub remove : List Str

unfoldable pub set_rules : List (Str × Str) → Header → Header
set_rules [] h = h
set_rules ((k, v) ∷ rest) h = set_rules rest (set_header k v h)

unfoldable pub add_rules : List (Str × Str) → Header → Header
add_rules [] h = h
add_rules ((k, v) ∷ rest) h = add_rules rest (add_header k v h)

-- apply
unfoldable pub apply : HeaderRules → Header → Header
apply rules h = del_all rules.remove (add_rules rules.add (set_rules rules.set h))

abbrev is_nothing : {A : Type 0} → List A → Bool
is_nothing [] = true
is_nothing (x ∷ xs) = false

-- noResponseWork
abbrev pub no_work : HeaderRules → Bool
no_work rules = is_nothing rules.set && is_nothing rules.add && is_nothing rules.remove

-- WriteHeader and Write of responseWriter, which keeps whether it has applied its rules: what they do
-- to the writer below.
abbrev pub write_header_with : HeaderRules → Bool → ℕ → List Action
write_header_with rules written code =
    if written then write_header code ∷ [] else change (apply rules) ∷ write_header code ∷ []

abbrev pub write_with : HeaderRules → Bool → Str → List Action
write_with rules written b =
    if written then write b ∷ [] else write_header_with rules false 200 ++ write b ∷ []

unfoldable pub respond : HeaderRules → Bool → List Action → List Action
respond rules written [] = []
respond rules written (change f ∷ rest) = change f ∷ respond rules written rest
respond rules written (write_header code ∷ rest) =
    write_header_with rules written code ++ respond rules true rest
respond rules written (write b ∷ rest) = write_with rules written b ++ respond rules true rest

module _ {S : Type 0} where
  -- The handler of ForRoute, for the rules of the request and of the response.
  unfoldable pub headers : HeaderRules → HeaderRules → Handler S → Handler S
  headers on_request on_response next now r info s =
      let ran : Ran S = next now (record r { header = apply on_request r.header }) info s in
      if no_work on_response
      then ran
      else record ran { actions = respond on_response false ran.actions }
