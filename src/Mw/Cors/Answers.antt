-- ===== src/Mw/Cors/Answers.antt =====
-- What the handler answers, by whether the origin is one of the configured ones.
use nina.Prelude.{
  ℕ, ◌≡◌, Bool, true, false, Option, none, some, List, ◌++◌, Str, lit, str_eq, contains, to_lower,
  map, ℕ,
}
use nina.Http.{Header, get}
use nina.Http.Writing.{Writer, Action, act_all}
use nina.RouteTable.Build.{Route}
use nina.Reqctx.{Info, Request}
use nina.Serving.{Handler, Ran}
use nina.Mw.Cors.{Settings, Instance, ℤ}
use nina.Mw.Cors.Origins.{acao}

module _ {S : Type 0} (parse_duration : Str → Option ℤ) (set : Settings) (i : Instance)
    (route : Route) (next : Handler S) (now : ℕ) (req : Request) (info : Info) (s : S) where
  abbrev pub origin : Str
  origin = get (lit "Origin") req.header

  -- The origin is one of the configured ones, whatever its case.
  abbrev pub listed : Bool
  listed = contains (map to_lower set.allow_origins) (to_lower origin)

  -- The answer to an origin: to a preflight, status 204 without the handler inside; to another request,
  -- what the handler does behind headers that are set before it.
  abbrev pub Answered : Bool → Ran S → Type 0
  Answered true ran =
      ((w : Writer)
        → w.sent ≡ none
        → (h : Header) × ((act_all w ran.actions).sent ≡ some (204, h)) × (get acao h ≡ origin))
      × (ran.state ≡ s)
  Answered false ran =
      (early : List Action) × (ran
        ≡ record (next now req info s) { actions = early ++ (next now req info s).actions })
      × ((w : Writer)
          → ((act_all w early).sent ≡ w.sent) × (get acao (act_all w early).header ≡ origin))
