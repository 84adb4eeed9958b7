-- ===== src/Runtime/Preflight/Wanted.antt =====
-- Which paths get a synthetic route for OPTIONS.
use nina.Prelude.{
  arith, ◌≡◌, refl, ◌∙◌, ap, Bool, true, false, not, ◌&&◌, ◌||◌, Option, none, some, List, [], ◌∷◌,
  ◌++◌, any, contains, is_some, if◌then◌else◌, Str, lit, str_eq, ◌==◌, Bool-cases, inl, inr,
  same_str_iff,
}
use nina.Prelude.Map.{Map, lookup, insert, lookup-insert}
use nina.RouteTable.Build.{Route}
use nina.Chain.{Instance}
use nina.Runtime.Preflight.{PathInfo, is_cors, add_cors, noted, collect, no_cors, route_of_info}

module _ {H R : Type 0} (instances : Map Str (Instance H R)) where
  -- A route of a path whose middleware has CORS in it.
  abbrev pub uses_cors : Str → Route → Bool
  uses_cors p r = r.gateway_path == p && any (is_cors instances) r.middleware

  abbrev pub serves_options : Str → Route → Bool
  serves_options p r = r.gateway_path == p && r.method == lit "OPTIONS"

  abbrev has_cors : Option PathInfo → Bool
  has_cors none = false
  has_cors (some pi) = not (no_cors instances pi.cors)

  abbrev has_options : Option PathInfo → Bool
  has_options none = false
  has_options (some pi) = contains pi.methods (lit "OPTIONS")

  contains-append :
      (xs : List Str) (y a : Str) → contains (xs ++ y ∷ []) a ≡ contains xs a || y == a
  contains-append [] y a = ground arith
  contains-append (x ∷ xs) y a = ground (arith, contains-append xs y a)

  no_cors-append : (xs : List Str) (y : Str) → no_cors instances (xs ++ y ∷ []) ≡ false
  no_cors-append [] y = refl
  no_cors-append (x ∷ xs) y = refl

  no_cors-contains : (xs : List Str) (y : Str) → contains xs y ≡ true → no_cors instances xs ≡ false
  no_cors-contains [] y e = cc
  no_cors-contains (x ∷ xs) y e = refl

  no_cors-step :
      (cors : List Str) (n : Str)
      → not (
          no_cors instances
            (if is_cors instances n && not (contains cors n) then cors ++ n ∷ [] else cors))
        ≡ not (no_cors instances cors) || is_cors instances n
  no_cors-step cors n = elim (Bool-cases (contains cors n)) [
    | inl c ↦ ground (arith, c, no_cors-contains cors n c)
    | inr c ↦ ground (arith, c, no_cors-append cors n)
  ]

  or_assoc : (a b c : Bool) → (a || b) || c ≡ a || (b || c)
  or_assoc true b c = refl
  or_assoc false b c = refl

  -- Names are added exactly if there is one of CORS.
  no_cors-add_cors :
      (ns cors : List Str)
      → not (no_cors instances (add_cors instances cors ns))
        ≡ not (no_cors instances cors) || any (is_cors instances) ns
  unfolding add_cors
  no_cors-add_cors [] cors = ground arith
  no_cors-add_cors (n ∷ ns) cors =
      no_cors-add_cors ns _
      ∙ ap (λ b. b || any (is_cors instances) ns) (no_cors-step cors n)
      ∙ or_assoc (not (no_cors instances cors)) (is_cors instances n) (any (is_cors instances) ns)

  noted-has_cors :
      (r : Route) (o : Option PathInfo)
      → has_cors (some (noted instances r o)) ≡ has_cors o || any (is_cors instances) r.middleware
  noted-has_cors r none = no_cors-add_cors r.middleware []
  noted-has_cors r (some pi) = no_cors-add_cors r.middleware pi.cors

  noted-has_options :
      (r : Route) (o : Option PathInfo)
      → has_options (some (noted instances r o)) ≡ has_options o || r.method == lit "OPTIONS"
  noted-has_options r none = ground arith
  noted-has_options r (some pi) = contains-append pi.methods r.method (lit "OPTIONS")

  -- What a route adds to what is known of a path, for a fact that each route adds its own part to.
  fact-noted :
      (fact : Option PathInfo → Bool) (own : Route → Bool)
      → ((r : Route) (o : Option PathInfo) → fact (some (noted instances r o)) ≡ fact o || own r)
      → (p : Str) (r : Route) (m : Map Str PathInfo)
      → fact (lookup p (insert r.gateway_path (noted instances r (lookup r.gateway_path m)) m))
        ≡ fact (lookup p m) || (r.gateway_path == p && own r)
  fact-noted fact own h p r m =
      let q = lookup-insert r.gateway_path p (noted instances r (lookup r.gateway_path m)) m in
      elim (Bool-cases (r.gateway_path == p)) [
        | inl e ↦
            let same : r.gateway_path ≡ p = (same_str_iff r.gateway_path p).0 e in
            let k = h r (lookup r.gateway_path m) in
            let l : lookup r.gateway_path m ≡ lookup p m = ap (λ x. lookup x m) same in
            ap fact q ∙ rw (e) (k ∙ ap (λ o. fact o || own r) l)
        | inr e ↦ ap fact q ∙ rw (e) ground arith
      ]

  fact-collect :
      (fact : Option PathInfo → Bool) (own : Route → Bool)
      → ((r : Route) (o : Option PathInfo) → fact (some (noted instances r o)) ≡ fact o || own r)
      → (p : Str) (rs : List Route) (m : Map Str PathInfo)
      → fact (lookup p (collect instances m rs))
        ≡ fact (lookup p m) || any (λ r. r.gateway_path == p && own r) rs
  unfolding collect
  fact-collect fact own h p [] m = ground arith
  fact-collect fact own h p (r ∷ rs) m =
      fact-collect fact own h p rs _
      ∙ ap (λ b. b || any (λ r. r.gateway_path == p && own r) rs) (fact-noted fact own h p r m)
      ∙ or_assoc (fact (lookup p m)) (r.gateway_path == p && own r) _

  is_some-route_of_info :
      (p : Str) (o : Option PathInfo)
      → is_some (route_of_info instances p o) ≡ has_cors o && not (has_options o)
  is_some-route_of_info p none = refl
  is_some-route_of_info p (some pi) = ground arith

  -- A path gets a synthetic route for OPTIONS if and only if one of its routes has CORS middleware and
  -- none of them serves OPTIONS.
  pub preflight-wanted :
      (p : Str) (routes : List Route)
      → is_some (route_of_info instances p (lookup p (collect instances [] routes)))
        ≡ any (uses_cors p) routes && not (any (serves_options p) routes)
  unfolding lookup
  preflight-wanted p routes =
      is_some-route_of_info p (lookup p (collect instances [] routes))
      ∙ ap (λ b. b && not (has_options (lookup p (collect instances [] routes))))
          (fact-collect has_cors (λ r. any (is_cors instances) r.middleware) noted-has_cors p routes
            [])
      ∙ ap (λ b. any (uses_cors p) routes && not b)
          (fact-collect has_options (λ r. r.method == lit "OPTIONS") noted-has_options p routes [])
