-- ===== src/RouteTable/Publishing.antt =====
-- The document that a table publishes against the routes that it serves.
use nina.Prelude.Map.{Map}
use nina.Prelude.{
  ◌≡◌, ◌∙◌, inl, inr, refl, sym, ap, subst, Bool, true, false, Option, some, List, [], ◌∷◌, ◌++◌,
  Str, In, In-append_inv, In-append_left, In-append_last, In-single, sort_by, if◌then◌else◌,
}
use nina.RouteTable.Build.{
  Operation, Config, Route, ExposedOp, ok, route_less, Table, allow_all, build, Acc, append_route,
  exposed_of, route_of,
}
use nina.RouteTable.Sorting.{In-sort_by, sort_by-In}
use nina.RouteTable.Served.{IsRouteOf, build-Built, take_exposes_keeps}
use nina.RouteTable.Slots.{with_methods, In-allow_all, allow_all-In}

-- The published operation is the one that the route serves.
pub record Describes (x : ExposedOp) (r : Route) : Type 0 where
  pub method : x.op.method ≡ r.method
  pub gateway_path : x.gateway_path ≡ r.gateway_path
  pub id : x.id ≡ r.id
  pub backend : x.backend ≡ r.backend
  pub upstream_path : x.op.path ≡ r.upstream_path
  pub upstream_id : x.op.op_id ≡ r.upstream_id

-- Published and served: the routes that are not hidden are those that the document describes.
pub record Publishes (routes : List Route) (xs : List ExposedOp) : Type 0 where
  pub serves :
      (x : ExposedOp) → In x xs → (r : Route) × In r routes × (r.hidden ≡ false) × Describes x r
  pub lists :
      (r : Route) → In r routes → r.hidden ≡ false → (x : ExposedOp) × In x xs × Describes x r

exposed_of-Describes :
    (cfg : Config) (specs : Map Str (List Operation)) (op : Operation) (r : Route)
    → IsRouteOf cfg specs op r
    → Describes (exposed_of op r) r
unfolding exposed_of route_of
exposed_of-Describes cfg specs op r o = record {
  method = ap (λ x. x.method) (sym o.same);
  gateway_path = refl;
  id = refl;
  backend = refl;
  upstream_path = ap (λ x. x.upstream_path) (sym o.same);
  upstream_id = ap (λ x. x.upstream_id) (sym o.same);
}

Publishes-hidden :
    (routes : List Route) (xs : List ExposedOp) (r : Route)
    → r.hidden ≡ true
    → Publishes routes xs
    → Publishes (routes ++ r ∷ []) xs
Publishes-hidden routes xs r hid p = record {
  serves = λ x i. let (y, j, h, d) = p.serves x i in (y, In-append_left routes _ j, h, d);
  lists = λ y i h. elim (In-append_inv routes (r ∷ []) i) [
    | inl j ↦ p.lists y j h
    | inr j ↦ cc (hid, h, ap (λ z. z.hidden) (In-single j))
  ];
}

Publishes-shown :
    (routes : List Route) (xs : List ExposedOp) (r : Route) (x0 : ExposedOp)
    → r.hidden ≡ false
    → Describes x0 r
    → Publishes routes xs
    → Publishes (routes ++ r ∷ []) (xs ++ x0 ∷ [])
Publishes-shown routes xs r x0 shown d0 p = record {
  serves = λ x i. elim (In-append_inv xs (x0 ∷ []) i) [
    | inl j ↦ let (y, k, h, d) = p.serves x j in (y, In-append_left routes _ k, h, d)
    | inr j ↦ (r, In-append_last r routes, shown, subst (λ z. Describes z r) (sym (In-single j)) d0)
  ];
  lists = λ y i h. elim (In-append_inv routes (r ∷ []) i) [
    | inl j ↦ let (x, k, d) = p.lists y j h in (x, In-append_left xs _ k, d)
    | inr j ↦ (x0, In-append_last x0 xs, subst (Describes x0) (sym (In-single j)) d0)
  ];
}

Publishes-keep :
    (cfg : Config) (specs : Map Str (List Operation)) (op : Operation) (r : Route) (acc : Acc)
    → IsRouteOf cfg specs op r
    → Publishes acc.routes acc.exposed
    → Publishes (append_route op r acc).routes (append_route op r acc).exposed
Publishes-keep cfg specs op r acc new p = by_hidden r.hidden refl
  where
    by_hidden :
        (h : Bool)
        → r.hidden ≡ h
        → Publishes
            (acc.routes ++ r ∷ [])
            (if h then acc.exposed else acc.exposed ++ exposed_of op r ∷ [])
    by_hidden true hid = Publishes-hidden acc.routes acc.exposed r hid p
    by_hidden false shown =
        Publishes-shown acc.routes acc.exposed r (exposed_of op r) shown
          (exposed_of-Describes cfg specs op r new) p

-- Sorting the routes and filling in their methods changes none of what is published.
Publishes-table :
    (rs : List Route) (xs : List ExposedOp)
    → Publishes rs xs
    → Publishes (allow_all (sort_by route_less rs) (sort_by route_less rs)) xs
Publishes-table rs xs p = record {
  serves = λ x i.
      let (r, j, h, d) = p.serves x i in
      (
        with_methods sorted r,
        allow_all-In sorted sorted (sort_by-In route_less rs j),
        h,
        record {
          method = d.method;
          gateway_path = d.gateway_path;
          id = d.id;
          backend = d.backend;
          upstream_path = d.upstream_path;
          upstream_id = d.upstream_id;
        },
      );
  lists = λ r i h.
      let (r0, j, e) = In-allow_all sorted sorted i in
      let (x, k, d) = p.lists r0 (In-sort_by route_less rs j) (sym (ap (λ z. z.hidden) e) ∙ h) in
      (
        x,
        k,
        subst (Describes x) (sym e) (record {
          method = d.method;
          gateway_path = d.gateway_path;
          id = d.id;
          backend = d.backend;
          upstream_path = d.upstream_path;
          upstream_id = d.upstream_id;
        }),
      );
}
  where
    sorted : List Route
    sorted = sort_by route_less rs

-- Of a table that was built, the published document is the merger's for operations that describe
-- exactly the served routes that are not hidden: each one a route, each such route one of them.
pub build-Publishes :
    {D : Type 0} (merge : List ExposedOp → Option D) (cfg : Config)
    (specs : Map Str (List Operation)) (t : Table D)
    → build merge cfg specs ≡ ok t
    → Publishes t.routes t.published × (merge t.published ≡ some t.spec)
build-Publishes merge cfg specs t eq =
    let b = build-Built merge cfg specs eq in
    let p =
      take_exposes_keeps cfg specs (λ acc. Publishes acc.routes acc.exposed)
        (Publishes-keep cfg specs) 0 cfg.expose _ (λ x l. l) b.taken
        (record { serves = λ x i. elim i [ ]; lists = λ r i. elim i [ ] }) in
    subst (λ x. Publishes x.routes x.published × (merge x.published ≡ some x.spec)) (sym b.table)
      (Publishes-table b.acc.routes b.acc.exposed p, b.merged)
