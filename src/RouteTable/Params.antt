-- ===== src/RouteTable/Params.antt =====
-- The origin of a table's routes, and the parameters of their paths.
use nina.Prelude.Map.{Map}
use nina.Prelude.{
  ◌≡◌, ◌∙◌, inl, inr, refl, sym, ap, subst, true, Option, none, some, List, [], ◌∷◌, Str, str_eq,
  same_str, same_str_iff, In, here, there, In-append_inv, In-single, contains, Bool-cases, sort_by,
}
use nina.RouteTable.Paths.{template_params, missing_param}
use nina.RouteTable.Build.{
  Operation, Config, Route, ExposedOp, ok, check_params, check_all_params, provided, route_less,
  Table, build, Acc, append_route,
}
use nina.RouteTable.Sorting.{In-sort_by}
use nina.RouteTable.Served.{IsRouteOf, build-Built, bind-eq-ok, take_exposes_keeps}
use nina.RouteTable.Slots.{In-allow_all}

contains-In : (xs : List Str) (a : Str) → contains xs a ≡ true → In a xs
contains-In [] a e = cc
contains-In (x ∷ xs) a e = elim (Bool-cases (same_str x a)) [
  | inl t ↦ here (sym ((same_str_iff x a).0 t))
  | inr f ↦ there (contains-In xs a (rw f at e))
]

missing_param-none : (up gw : List Str) {n : Str} → missing_param up gw ≡ none → In n up → In n gw
unfolding missing_param
missing_param-none [] gw e i = elim i [ ]
missing_param-none (x ∷ up) gw {n} e i = elim (Bool-cases (contains gw x)) [
  | inl t ↦ either i (contains-In gw x t) (missing_param-none up gw (rw (t, missing_param) at e))
  | inr f ↦ cc (rw (f, missing_param) at e)
]
  where
    either : In n (x ∷ up) → In x gw → (In n up → In n gw) → In n gw
    either (here same) g rest = rw same g
    either (there j) g rest = rest j

-- The gateway path declares every parameter of the upstream path.
abbrev pub HasParams : Route → Type 0
HasParams r =
    (n : Str) → In n (template_params r.upstream_path) → In n (template_params r.gateway_path)

check_params-HasParams : (r : Route) → check_params r ≡ ok tt → HasParams r
unfolding check_params
check_params-HasParams r e n i =
    missing_param-none (template_params r.upstream_path) (template_params r.gateway_path)
      (only (missing_param (template_params r.upstream_path) (template_params r.gateway_path)) e) i
  where
    only : (o : Option Str) → provided r o ≡ ok tt → o ≡ none
    only none e' = refl
    only (some x) e' = cc

check_all_params-HasParams :
    (rs : List Route) {r : Route} → check_all_params rs ≡ ok tt → In r rs → HasParams r
unfolding check_all_params
check_all_params-HasParams [] e i = elim i [ ]
check_all_params-HasParams (x ∷ rs) e (here same) =
    let (u, first, rest) = bind-eq-ok (check_params x) _ e in
    subst HasParams (sym same) (check_params-HasParams x first)
check_all_params-HasParams (x ∷ rs) e (there j) =
    let (u, first, rest) = bind-eq-ok (check_params x) _ e in check_all_params-HasParams rs rest j

-- The origin of every route so far.
abbrev Origins : Config → Map Str (List Operation) → Acc → Type 0
Origins cfg specs acc = (r : Route) → In r acc.routes → (op : Operation) × IsRouteOf cfg specs op r

Origins-keep :
    (cfg : Config) (specs : Map Str (List Operation)) (op : Operation) (r : Route) (acc : Acc)
    → IsRouteOf cfg specs op r
    → Origins cfg specs acc
    → Origins cfg specs (append_route op r acc)
Origins-keep cfg specs op r acc new old x i = elim (In-append_inv acc.routes (r ∷ []) i) [
  | inl j ↦ old x j
  | inr j ↦ (op, subst (IsRouteOf cfg specs op) (sym (In-single j)) new)
]

-- Every route of a table that was built is, but for the methods that it advertises, the route of an
-- operation of its backend's spec which an expose entry selects and does not disable; and its
-- gateway path declares every parameter that its upstream path needs.
pub build-origin :
    {D : Type 0} (merge : List ExposedOp → Option D) (cfg : Config)
    (specs : Map Str (List Operation)) (t : Table D) (r : Route)
    → build merge cfg specs ≡ ok t
    → In r t.routes
    → (op : Operation) × (r0 : Route) × IsRouteOf cfg specs op r0
      × (r ≡ record r0 { allowed_methods = r.allowed_methods })
      × HasParams r
build-origin merge cfg specs t r eq i =
    let b = build-Built merge cfg specs eq in
    let sorted = sort_by route_less b.acc.routes in
    let (r0, j, e) = In-allow_all sorted sorted (subst (λ x. In r x.routes) b.table i) in
    let k = In-sort_by route_less b.acc.routes j in
    let (op, origin) =
      take_exposes_keeps cfg specs (Origins cfg specs) (Origins-keep cfg specs) 0 cfg.expose _
        (λ x l. l) b.taken (λ x l. elim l [ ]) r0 k in
    (
      op,
      r0,
      origin,
      e ∙ ap (λ x. record r0 { allowed_methods = x.allowed_methods }) (sym e),
      subst HasParams (sym e) (check_all_params-HasParams b.acc.routes b.params k),
    )
