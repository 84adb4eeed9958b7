-- ===== src/Chain/Scenarios.antt =====
-- A route that names its rate limit before its authentication.
use nina.Chain.Registry.{build_loop}
use nina.Chain.Registry.{construct}
use nina.Prelude.Map.{insert}
use nina.Prelude.{
  ℕ, ◌≡◌, refl, none, some, List, [], ◌∷◌, Str, lit, same_str, sort_by, sort_strings, nat_beq,
  Pairwise, false, here, there, subst, sym, str_eq, ◌==◌,
}
use nina.Prelude.Map.{Map, lookup}
use nina.Chain.{
  cat_cors, cat_auth, cat_rate_limit, rank, Instance, ok, entries, entry_less, wrap, assemble,
}
use nina.Chain.Order.{IsOrdered, assemble-IsOrdered}
use nina.Chain.Registry.{Registry, MiddlewareDef, build, constructed, keys}
use nina.Chain.Releasing.{due, build-releases}

-- A handler is what it logs.
abbrev Log : Type 0
Log = List ℕ

abbrev limits : Instance Log ℕ
limits = record { category = cat_rate_limit; for_route = λ r. some (some (λ h. 2 ∷ h)) }

abbrev login : Instance Log ℕ
login = record { category = cat_auth; for_route = λ r. some (some (λ h. 1 ∷ h)) }

abbrev cross_origin : Instance Log ℕ
cross_origin = record { category = cat_cors; for_route = λ r. some none }

abbrev configured : Map Str (Instance Log ℕ)
configured = (lit "limits", limits) ∷ (lit "login", login) ∷ (lit "cors", cross_origin) ∷ []

assembled :
    assemble (lit "limits" ∷ lit "login" ∷ lit "cors" ∷ []) configured 0 (9 ∷ [])
    ≡ ok (1 ∷ 2 ∷ 9 ∷ [])
unfolding assemble entries lookup same_str lit wrap sort_by entry_less rank
assembled = refl

assemble-IsOrdered_example :
    IsOrdered (lit "limits" ∷ lit "login" ∷ lit "cors" ∷ []) configured 0 (9 ∷ []) (1 ∷ 2 ∷ 9 ∷ [])
assemble-IsOrdered_example =
    assemble-IsOrdered (lit "limits" ∷ lit "login" ∷ lit "cors" ∷ []) configured 0 (9 ∷ [])
      (1 ∷ 2 ∷ 9 ∷ []) assembled

-- An instance is a number, and the even ones have a Close. The second constructor fails.
abbrev ctors : Registry ℕ ℕ
ctors = (lit "cors", λ name raw. some raw) ∷ (lit "jwt", λ name raw. none) ∷ []

abbrev two_defs : Map Str (MiddlewareDef ℕ)
two_defs =
    (lit "b", record { kind = lit "jwt"; raw = 3 })
    ∷ (lit "a", record { kind = lit "cors"; raw = 2 })
    ∷ []

two_apart : Pairwise (λ a b. a == b ≡ false) (lit "a" ∷ lit "b" ∷ [])
unfolding same_str lit
two_apart = (
  λ y i. elim i [ here e ↦ subst (λ z. lit "a" == z ≡ false) (sym e) refl | there j ↦ elim j [ ] ],
  ((λ y i. elim i [ ]), tt),
)

build-releases_example :
    let run = build (λ n. nat_beq n 2) ctors two_defs in
    run.closed
    ≡ due
        (λ n. nat_beq n 2)
        ctors
        two_defs
        run.result
        (constructed (λ n. nat_beq n 2) ctors two_defs (sort_strings (keys two_defs)))
unfolding sort_strings lit
build-releases_example = build-releases (λ n. nat_beq n 2) ctors two_defs two_apart

first_is_closed : (build (λ n. nat_beq n 2) ctors two_defs).closed ≡ 2 ∷ []
unfolding build build_loop sort_strings lit construct lookup same_str insert
first_is_closed = refl
