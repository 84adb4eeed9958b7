-- ===== src/Router/Adding.antt =====
-- Add refines an update of the abstract view at the template's shape.
use mathlib.Core.List.{append-nil, append_assoc}
use mathlib.Core.Path.{ap₂}
use nina.Prelude.Map.{lookup, insert, lookup-insert}
use nina.Prelude.{
  ◌≢◌, ◌&&◌, to_upper, sort_strings, ◌∙◌, Option, none, some, List, [], ◌∷◌, ◌++◌, ◌≡◌, refl, sym,
  ap, inl, inr, Str, arith, if◌then◌else◌, ◌==◌, same_str_iff, str_eq, Option-cases,
}
use nina.Router.{
  Router, entries, split_path, add, RouteEntry, Handlers, Node, Statics, Wildcard, node, param,
  with_handlers, static_child, set_static, or_new, wildcard_child, register, param_name, add_at,
  in_static, in_param,
}
use nina.Router.Shape.{
  Part, literal, hole, shape, names_of, at_shape, at_shape-or_new, at_shape-literal, at_shape-hole,
  at_shape-nil, shape-fixed, shape-param, names_of-fixed, names_of-param, at_shape-fixed,
  at_shape-param, same_shape, same_shape_iff, static_child-set_static,
}

regroup :
    (names : List Str) (name : Str) (rest : List Str)
    → (names ++ name ∷ []) ++ rest ≡ names ++ name ∷ rest
regroup names name rest = append_assoc names (name ∷ []) rest

module _ {T : Type 0} where
  abbrev pub entry : T → List Str → RouteEntry T
  entry payload names = record { payload = payload; param_names = names }

  -- `n'` holds `h` at the shape, and is `n` everywhere else.
  abbrev pub Updated : List Part → Handlers T → Node T → Node T → Type 0
  Updated s h n n' =
      (ps : List Part) → at_shape ps n' ≡ (if same_shape s ps then h else at_shape ps n)

  Updated-nil : (n : Node T) (h' : Handlers T) → Updated [] h' n (with_handlers h' n)
  unfolding at_shape same_shape
  Updated-nil (node ss w h) h' [] = refl
  Updated-nil (node ss w h) h' (literal a ∷ ps) = refl
  Updated-nil (node ss w h) h' (hole ∷ ps) = refl

  Updated-static :
      (seg : Str) (s : List Part) (ss : Statics T) (w : Wildcard T) (h h' : Handlers T)
      (n' : Node T)
      → Updated s h' (or_new (static_child seg ss)) n'
      → Updated (literal seg ∷ s) h' (node ss w h) (node (set_static seg n' ss) w h)
  unfolding same_shape
  Updated-static seg s ss w h h' n' u [] = rw (at_shape-nil, at_shape-nil)
  Updated-static seg s ss w h h' n' u (hole ∷ ps) = rw (at_shape-hole, at_shape-hole)
  Updated-static seg s ss w h h' n' u (literal a ∷ ps) =
      rw (at_shape-literal, at_shape-literal)
        (ground (
          arith,
          same_str_iff seg a,
          static_child-set_static seg a n' ss,
          u ps,
          at_shape-or_new ps (static_child seg ss),
        ))

  Updated-param :
      (s : List Part) (ss : Statics T) (w : Wildcard T) (h h' : Handlers T) (n' : Node T)
      → Updated s h' (or_new (wildcard_child w)) n'
      → Updated (hole ∷ s) h' (node ss w h) (node ss (param n') h)
  unfolding same_shape
  Updated-param s ss w h h' n' u [] = rw (at_shape-nil, at_shape-nil)
  Updated-param s ss w h h' n' u (literal a ∷ ps) = rw (at_shape-literal, at_shape-literal)
  Updated-param s ss w h h' n' u (hole ∷ ps) =
      rw (at_shape-hole, at_shape-hole)
        (ground (arith, u ps, at_shape-or_new ps (wildcard_child w)))

  -- The clauses of the loop, by the kind of the segment.
  module _ (method : Str) (payload : T) where
    add_at-fixed :
        (seg : Str) (segs names : List Str) (ss : Statics T) (w : Wildcard T) (h : Handlers T)
        → param_name seg ≡ none
        → add_at method payload (seg ∷ segs) names (node ss w h)
          ≡ in_static seg ss w h (add_at method payload segs names (or_new (static_child seg ss)))
    unfolding add_at
    add_at-fixed seg segs names ss w h fixed = rw (fixed, add_at)

    add_at-param :
        (seg name : Str) (segs names : List Str) (ss : Statics T) (w : Wildcard T) (h : Handlers T)
        → param_name seg ≡ some name
        → add_at method payload (seg ∷ segs) names (node ss w h)
          ≡ in_param ss h
              (add_at method payload segs (names ++ name ∷ []) (or_new (wildcard_child w)))
    unfolding add_at
    add_at-param seg name segs names ss w h is_param = rw (is_param, add_at)

  -- The view that Add goes on with is the view that it is called with.
  module _ (method : Str) (payload : T) where
    fixed_view :
        (seg : Str) (segs names : List Str) (ss : Statics T) (w : Wildcard T) (h : Handlers T)
        → param_name seg ≡ none
        → register method
            (entry payload (names ++ names_of segs))
            (at_shape (shape segs) (or_new (static_child seg ss)))
          ≡ register method
              (entry payload (names ++ names_of (seg ∷ segs)))
              (at_shape (shape (seg ∷ segs)) (node ss w h))
    fixed_view seg segs names ss w h fixed = sym (
        ap₂ (λ vs. register method (entry payload (names ++ vs))) (names_of-fixed seg segs fixed)
          (at_shape-fixed seg segs ss w h fixed))

    param_view :
        (seg name : Str) (segs names : List Str) (ss : Statics T) (w : Wildcard T) (h : Handlers T)
        → param_name seg ≡ some name
        → register method
            (entry payload ((names ++ name ∷ []) ++ names_of segs))
            (at_shape (shape segs) (or_new (wildcard_child w)))
          ≡ register method
              (entry payload (names ++ names_of (seg ∷ segs)))
              (at_shape (shape (seg ∷ segs)) (node ss w h))
    param_view seg name segs names ss w h is_param = sym (
        ap₂ (λ vs. register method (entry payload vs))
          (ap (λ vs. names ++ vs) (names_of-param seg name segs is_param)
            ∙ sym (regroup names name (names_of segs)))
          (at_shape-param seg segs ss w h name is_param))

  -- Add where the abstract view accepts the method: the tree afterwards is the update at the shape.
  pub add_at-some :
      (method : Str) (payload : T) (segs names : List Str) (n : Node T) {h : Handlers T}
      → register method (entry payload (names ++ names_of segs)) (at_shape (shape segs) n) ≡ some h
      → (n' : Node T) × (add_at method payload segs names n ≡ some n') × Updated (shape segs) h n n'
  unfolding add_at shape names_of
  add_at-some method payload [] names (node ss w h0) {h} e = (
    with_handlers h (node ss w h0),
    rw (rw (append-nil, at_shape-nil) at e),
    Updated-nil (node ss w h0) h,
  )
  add_at-some method payload (seg ∷ segs) names (node ss w h0) {h} e =
      elim (Option-cases (param_name seg)) [
        | inl fixed ↦
            let (n', a, u) =
              add_at-some method payload segs names (or_new (static_child seg ss))
                (fixed_view method payload seg segs names ss w h0 fixed ∙ e) in
            (
              node (set_static seg n' ss) w h0,
              add_at-fixed method payload seg segs names ss w h0 fixed
                  ∙ ap (in_static seg ss w h0) a,
              rw (shape-fixed seg segs fixed) (Updated-static seg (shape segs) ss w h0 h n' u),
            )
        | inr (name, is_param) ↦
            let (n', a, u) =
              add_at-some method payload segs (names ++ name ∷ []) (or_new (wildcard_child w))
                (param_view method payload seg name segs names ss w h0 is_param ∙ e) in
            (
              node ss (param n') h0,
              add_at-param method payload seg name segs names ss w h0 is_param
                  ∙ ap (in_param ss h0) a,
              rw (shape-param seg name segs is_param) (Updated-param (shape segs) ss w h0 h n' u),
            )
      ]

  -- Add where the abstract view has the method already: the call is refused.
  pub add_at-none :
      (method : Str) (payload : T) (segs names : List Str) (n : Node T)
      → register method (entry payload (names ++ names_of segs)) (at_shape (shape segs) n) ≡ none
      → add_at method payload segs names n ≡ none
  unfolding add_at shape names_of
  add_at-none method payload [] names (node ss w h0) e = rw (rw (append-nil, at_shape-nil) at e)
  add_at-none method payload (seg ∷ segs) names (node ss w h0) e =
      elim (Option-cases (param_name seg)) [
        | inl fixed ↦
            let ih =
              add_at-none method payload segs names (or_new (static_child seg ss))
                (fixed_view method payload seg segs names ss w h0 fixed ∙ e) in
            add_at-fixed method payload seg segs names ss w h0 fixed ∙ ap (in_static seg ss w h0) ih
        | inr (name, is_param) ↦
            let ih =
              add_at-none method payload segs (names ++ name ∷ []) (or_new (wildcard_child w))
                (param_view method payload seg name segs names ss w h0 is_param ∙ e) in
            add_at-param method payload seg name segs names ss w h0 is_param
            ∙ ap (in_param ss h0) ih
      ]

module _ {T : Type 0} where
  -- The entry that serves a method at a shape.
  abbrev pub serves : Str → List Part → Node T → Option (RouteEntry T)
  serves method s n = lookup method (entries (at_shape s n).by_method)

  register-fresh :
      (method j : Str) (e : RouteEntry T) (h : Handlers T)
      → lookup method (entries h.by_method) ≡ none
      → (h' : Handlers T) × (register method e h ≡ some h')
        × (lookup j (entries h'.by_method)
            ≡ (if method == j then some e else lookup j (entries h.by_method)))
  unfolding register
  register-fresh method j e h fresh = (
    record {
      by_method = some (insert method e (entries h.by_method));
      methods = sort_strings (h.methods ++ method ∷ []);
    },
    rw fresh,
    lookup-insert method j e (entries h.by_method),
  )

  register-taken :
      (method : Str) (e : RouteEntry T) (h : Handlers T) {old : RouteEntry T}
      → lookup method (entries h.by_method) ≡ some old
      → register method e h ≡ none
  unfolding register
  register-taken method e h taken = rw taken

  module _ (method template : Str) (payload : T) (r : Router T) where
    -- If no route of the template's shape serves the method, Add accepts the route: afterwards that
    -- shape serves it with the payload and the template's own parameter names, and every other
    -- method and shape is served as before.
    pub add_fresh :
        (j : Str) (ps : List Part)
        → serves (to_upper method) (shape (split_path template)) r.root ≡ none
        → let (r', err) = add method template payload r in
          (err ≡ none)
          × (serves j ps r'.root ≡ (
              if same_shape (shape (split_path template)) ps && to_upper method == j
              then some (entry payload (names_of (split_path template)))
              else serves j ps r.root))
    unfolding add
    add_fresh j ps fresh =
        let segs = split_path template in
        let (h, reg, look) =
          register-fresh (to_upper method) j (entry payload (names_of segs))
            (at_shape (shape segs) r.root) fresh in
        let (root', added, updated) = add_at-some (to_upper method) payload segs [] r.root reg in
        rw (added, add) (refl, ground (arith, updated ps, look, same_shape_iff (shape segs) ps))

    -- If a route of the template's shape serves the method already, Add reports a conflict and changes
    -- nothing.
    pub add_taken :
        {old : RouteEntry T}
        → serves (to_upper method) (shape (split_path template)) r.root ≡ some old
        → let (r', err) = add method template payload r in (r' ≡ r) × (err ≢ none)
    unfolding add
    add_taken taken =
        let segs = split_path template in
        let refused = add_at-none (to_upper method) payload segs [] r.root (
          register-taken (to_upper method) (entry payload (names_of segs))
            (at_shape (shape segs) r.root) taken) in
        rw (refused, add) (refl, λ e. cc)
