-- ===== src/Runtime/Assembly/Scenarios.antt =====
-- A build whose second backend cannot be made, and one that succeeds.
use nina.Prelude.{
  ℕ, ◌≡◌, refl, true, false, Option, none, some, List, [], ◌∷◌, ◌++◌, is_some, Str, lit, str_eq,
  ◌==◌, same_str, Pairwise, here, there, subst, sym, if◌then◌else◌,
}
use nina.Prelude.Map.{Map, insert}
use nina.Router.{empty_router}
use nina.RouteTable.Build.{Route}
use nina.Chain.{Instance, cat_auth}
use nina.Runtime.Assembly.{
  the_context, instance_of, backend_of, the_stores, Inputs, build_runtime, load_specs,
  make_backends,
}
use nina.Runtime.Assembly.Owned.{owned, opened, made_by, build_runtime-accounted}

abbrev login : Instance (List ℕ) Route
login = record { category = cat_auth; for_route = λ r. some none }

abbrev by_name : Map Str (Instance (List ℕ) Route)
by_name = (lit "login", login) ∷ []

-- A proxy is a number. The one of "b" has no usable host.
abbrev proxy_of : Str → Option ℕ
proxy_of name = if name == lit "b" then none else some 1

abbrev two_backends : Inputs (List ℕ) ℕ ℕ ℕ
two_backends = record {
  stores_made = true;
  guard_made = true;
  middleware = record { result = some by_name; error = none; closed = [] };
  is_closer = λ i. true;
  names = lit "a" ∷ lit "b" ∷ [];
  load = λ name. some 7;
  table = λ specs. some [];
  new_backend = proxy_of;
  proxy = λ r b. [];
  terminal = λ allow. [];
  bind = λ r b h. 0;
  empty_router = empty_router;
}

undone :
    (build_runtime two_backends).released
    ≡ the_context ∷ instance_of login ∷ backend_of 1 ∷ the_stores ∷ []
unfolding build_runtime load_specs make_backends lit same_str insert
undone = refl

two_names : Pairwise (λ a b. a == b ≡ false) (lit "a" ∷ lit "b" ∷ [])
unfolding same_str lit
two_names = (
  λ y i. elim i [ here e ↦ subst (λ z. lit "a" == z ≡ false) (sym e) refl | there j ↦ elim j [ ] ],
  ((λ y i. elim i [ ]), tt),
)

build_runtime-accounted_example :
    ((build_runtime two_backends).released
        ++ owned two_backends (build_runtime two_backends).runtime
      ≡ opened two_backends by_name (made_by two_backends))
    × (is_some (build_runtime two_backends).runtime ≡ true
        → (build_runtime two_backends).released ≡ [])
build_runtime-accounted_example =
    build_runtime-accounted two_backends by_name refl refl refl two_names
