-- ===== src/Runtime/Assembly/Owned.antt =====
-- Who has to release what Build makes.
use nina.Prelude.{
  Bool, true, false, ◌≡◌, refl, sym, subst, ◌∙◌, ap, Option, none, some, List, [], ◌∷◌, ◌++◌, map,
  Str, str_eq, ◌==◌, All, Pairwise, is_some,
}
use mathlib.Core.List.{append_assoc, append-nil}
use nina.Prelude.Map.{Map, lookup, insert}
use nina.RouteTable.Build.{Route}
use nina.Chain.{Instance}
use nina.Router.{Router}
use nina.Runtime.Preflight.{BuildError}
use nina.Chain.Registry.{items, close_all}
use nina.Chain.Releasing.{items-insert, still-fresh, nothing-taken}
use nina.Runtime.Assembly.{
  Resource, the_context, instance_of, backend_of, the_stores, Assembly, Ending, Inputs, load_specs,
  make_backends, close, routed, with_backends, with_table, with_specs, first_steps, build_runtime,
}

module _ {B : Type 0} (new_backend : Str → Option B) where
  -- The proxies that are made for the names, up to the first that fails.
  unfoldable pub made : List Str → List B
  made [] = []
  made (n ∷ ns) = elim (new_backend n) [ none ↦ [] | some b ↦ b ∷ made ns ]

  items-make_backends :
      (names : List Str) (m : Map Str B)
      → Pairwise (λ a b. a == b ≡ false) names
      → All (λ n. lookup n m ≡ none) names
      → items (make_backends new_backend names m).0 ≡ items m ++ made names
  unfolding make_backends made
  items-make_backends [] m d f = sym (append-nil (items m))
  items-make_backends (n ∷ ns) m (d, ds) (f, fs) =
      elim (new_backend n)
        as (λ o.
          items
            (elim o as (λ x. Map Str B × Bool) [
              | none ↦ (m, false)
              | some b ↦ make_backends new_backend ns (insert n b m)
            ]).0
          ≡ items m ++ elim o as (λ x. List B) [ none ↦ [] | some b ↦ b ∷ made ns ]) [
            | none ↦ sym (append-nil (items m))
            | some b ↦
                items-make_backends ns (insert n b m) ds (still-fresh n b m ns d fs)
                ∙ ap (λ x. x ++ made ns) (items-insert n b m f)
                ∙ append_assoc (items m) (b ∷ []) (made ns)
          ]

-- The proxies that a build makes, which it does if it has the documents and their table.
abbrev pub made_by : {H B Spec T : Type 0} → Inputs H B Spec T → List B
made_by inp = elim (load_specs inp.load inp.names []) [
  | none ↦ []
  | some specs ↦ elim (inp.table specs) [ none ↦ [] | some routes ↦ made inp.new_backend inp.names ]
]

module _ {H B Spec T : Type 0} (inp : Inputs H B Spec T) where
  -- What the runtime of a build will release when it is closed.
  abbrev pub owned : Option (Assembly H B T) → List (Resource (Instance H Route) B)
  owned none = []
  owned (some rt) = close inp rt

  -- What there is to release once the middleware has been built and the proxies of some backends.
  abbrev pub opened : Map Str (Instance H Route) → List B → List (Resource (Instance H Route) B)
  opened instances backends =
      the_context ∷ map instance_of (close_all inp.is_closer instances)
      ++ map backend_of backends
      ++ the_stores ∷ []

  abbrev Accounted : List (Resource (Instance H Route) B) → Ending H B T → Type 0
  Accounted all b =
      (b.released ++ owned b.runtime ≡ all) × (is_some b.runtime ≡ true → b.released ≡ [])

  routed-Accounted :
      (instances : Map Str (Instance H Route)) (backends : Map Str B)
      (o : Router T × Option BuildError)
      → Accounted (opened instances (items backends)) (routed inp instances backends o)
  routed-Accounted instances backends (router, none) = (refl, λ e. refl)
  routed-Accounted instances backends (router, some x) = (append-nil _, λ e. cc)

  with_backends-Accounted :
      (instances : Map Str (Instance H Route)) (routes : List Route) (m : Map Str B × Bool)
      → Accounted (opened instances (items m.0)) (with_backends inp instances routes m)
  with_backends-Accounted instances routes (backends, false) = (append-nil _, λ e. cc)
  with_backends-Accounted instances routes (backends, true) = routed-Accounted instances backends _

  by_specs :
      (instances : Map Str (Instance H Route)) (o : Option (Map Str Spec))
      → Pairwise (λ a b. a == b ≡ false) inp.names
      → Accounted
          (opened instances (elim o [
            | none ↦ []
            | some specs ↦ elim (inp.table specs) [
              | none ↦ []
              | some routes ↦ made inp.new_backend inp.names
            ]
          ]))
          (with_specs inp instances o)
  by_specs instances none d = (append-nil _, λ e. cc)
  by_specs instances (some specs) d =
      elim (inp.table specs)
        as (λ o.
          Accounted
            (opened instances (elim o [ none ↦ [] | some routes ↦ made inp.new_backend inp.names ]))
            (with_table inp instances o)) [
              | none ↦ (append-nil _, λ e. cc)
              | some routes ↦
                  subst
                    (λ bs. Accounted (opened instances bs) (
                      with_backends inp instances routes
                        (make_backends inp.new_backend inp.names [])))
                    (items-make_backends inp.new_backend inp.names [] d (nothing-taken B inp.names))
                    (with_backends-Accounted instances routes
                      (make_backends inp.new_backend inp.names []))
            ]

  -- If the stores, the guard and the middleware are made, and each backend has a name of its own, then
  -- whatever a build has made by the time it ends is released by it or by the close of its runtime,
  -- and by one of them only: a build that fails has released the context, each instance with a Close,
  -- each proxy made so far and the stores, and one that succeeds has released nothing.
  pub build_runtime-accounted :
      (instances : Map Str (Instance H Route))
      → inp.stores_made ≡ true
      → inp.guard_made ≡ true
      → inp.middleware.result ≡ some instances
      → Pairwise (λ a b. a == b ≡ false) inp.names
      → ((build_runtime inp).released ++ owned (build_runtime inp).runtime
          ≡ opened instances (made_by inp))
        × (is_some (build_runtime inp).runtime ≡ true → (build_runtime inp).released ≡ [])
  unfolding build_runtime
  build_runtime-accounted instances s g m d =
      let starts : build_runtime inp ≡ with_specs inp instances (load_specs inp.load inp.names []) =
        ap (λ x. first_steps inp x inp.guard_made inp.middleware.result) s
        ∙ ap (λ x. first_steps inp true x inp.middleware.result) g
        ∙ ap (first_steps inp true true) m in
      subst (Accounted (opened instances (made_by inp))) (sym starts)
        (by_specs instances (load_specs inp.load inp.names []) d)
