-- ===== src/Router/Matching.antt =====
-- What Match answers, by the shapes that are registered.
use nina.Prelude.Map.{Map}
use nina.Prelude.{
  true, false, Option, none, some, List, [], ◌≡◌, ◌↔◌, ◌∙◌, refl, ap, Str, arith, to_upper,
}
use nina.Router.{
  RouteEntry, Handlers, Node, Param, Router, handlers, walk, is_terminal, entries, entry_for,
  zip_params, match, split_path, at_handlers, at_node, with_params, answer_or_miss,
}
use nina.Router.Shape.{Part, at_shape}
use nina.Router.Walking.{Precedes, Candidate, NoCandidate, Outcome, found, missed, walk-Outcome}

module _ {T : Type 0} where
  -- What a request is served with: the entry, at the shape that precedes every other candidate.
  pub record Served (method : Str) (path : Str) (r : Router T) (payload : T) (params : List Param)
      : Type 0 where
    pub shape : List Part
    pub captures : List Str
    pub candidate : Candidate r.root (split_path path) shape captures
    pub first :
        (qs : List Part) (caps : List Str)
        → Candidate r.root (split_path path) qs caps
        → Precedes shape qs
    pub entry : RouteEntry T
    pub registered :
        entry_for (to_upper method) (entries (at_shape shape r.root).by_method) ≡ some entry
    pub same_payload : payload ≡ entry.payload
    pub same_params : params ≡ zip_params entry.param_names captures

  with_params-some :
      (values : List Str) (o : Option (RouteEntry T)) {payload : T} {params : List Param}
      → with_params values o ≡ some (payload, params)
      → (e : RouteEntry T) × (o ≡ some e)
        × (payload ≡ e.payload)
        × (params ≡ zip_params e.param_names values)
  with_params-some values none eq = cc
  with_params-some values (some e) eq = (e, refl, ground arith, ground arith)

  answer_found :
      (method : Str) (values : List Str) (h : Handlers T) (m : Option (Map Str (RouteEntry T)))
      {payload : T} {params : List Param}
      → (answer_or_miss method values h m).found ≡ some (payload, params)
      → (e : RouteEntry T) × (entry_for (to_upper method) (entries m) ≡ some e)
        × (payload ≡ e.payload)
        × (params ≡ zip_params e.param_names values)
  answer_found method values h none eq = cc
  answer_found method values h (some m) eq =
      with_params-some values (entry_for (to_upper method) m) eq

  path_matched_iff :
      (method : Str) (values : List Str) (h : Handlers T)
      → (at_handlers method values h).path_matched ≡ is_terminal h
  path_matched_iff method values h = ground arith

  module _ (method path : Str) (r : Router T) where
    -- A request that Match finds is served with the payload registered for its method (for HEAD,
    -- failing that, for GET) at a shape that matches the path and that, among all registered shapes
    -- which do, has literals where it first differs; its parameters are the names of that very
    -- template, paired with the unescaped segments at the parameters' places.
    pub match-found :
        {payload : T} {params : List Param}
        → (match method path r).found ≡ some (payload, params)
        → Served method path r payload params
    unfolding match
    match-found {payload} {params} eq =
        go (walk r.root (split_path path) []) (walk-Outcome r.root (split_path path) []) eq
      where
        go :
            (o : Option (Node T × List Str))
            → Outcome r.root (split_path path) [] o
            → (at_node method o).found ≡ some (payload, params)
            → Served method path r payload params
        go _ (missed k) q = cc
        go _ (found {n'} {vs} f) q =
            let (e, reg, pay, par) =
              answer_found method vs (handlers n') (handlers n').by_method q in
            record {
              shape = f.shape;
              captures = f.captures;
              candidate = f.candidate;
              first = f.first;
              entry = e;
              registered = rw (← f.reached) reg;
              same_payload = pay;
              same_params = par ∙ ap (zip_params e.param_names) f.values;
            }

    -- The path is unknown, a 404, exactly when no registered shape matches it.
    pub match-missed_iff :
        ((match method path r).path_matched ≡ false) ↔ NoCandidate r.root (split_path path)
    unfolding match
    match-missed_iff =
        go (walk r.root (split_path path) []) (walk-Outcome r.root (split_path path) [])
      where
        go :
            (o : Option (Node T × List Str))
            → Outcome r.root (split_path path) [] o
            → ((at_node method o).path_matched ≡ false) ↔ NoCandidate r.root (split_path path)
        go _ (missed k) = (λ q. k, λ q. refl)
        go _ (found {n'} {vs} f) =
            let t : is_terminal (handlers n') ≡ true = rw f.reached f.candidate.1 in
            let m : (at_handlers method vs (handlers n')).path_matched ≡ true =
              path_matched_iff method vs (handlers n') ∙ t in
            (λ q. cc, λ k. absurd (k f.shape f.captures f.candidate))
