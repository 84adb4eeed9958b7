-- ===== src/Runtime/Preflight/Added.antt =====
-- What the router serves once the synthetic routes for OPTIONS have been added.
use nina.Prelude.{
  arith, ◌≡◌, refl, sym, ◌∙◌, ap, subst, Bool, true, false, ◌&&◌, Option, none, some, List, [], ◌∷◌,
  In, here, there, if◌then◌else◌, Str, lit, str_eq, ◌==◌, to_upper, Bool-cases, Option-cases, inl,
  inr, same_str_iff, same_str_refl,
}
use nina.Prelude.Map.{Map, lookup}
use nina.Router.{Router, RouteEntry, ConflictError, add, split_path}
use nina.Router.Shape.{Part, shape, names_of, same_shape, same_shape_iff}
use nina.Router.Adding.{entry, serves, add_fresh, add_taken}
use nina.RouteTable.Build.{Route}
use nina.Chain.{Instance, Assembled, ok, err, assemble}
use nina.Runtime.Preflight.{
  PathInfo, route_of_info, allow_of, BuildError, add_preflight, add_assembled, after_add,
  add_preflights,
}

abbrev pub options : Str
options = lit "OPTIONS"

module _ {T : Type 0} (method template : Str) (payload : T) (r : Router T) where
  -- Where Add accepts a route, its shape had none for the method.
  add-free :
      (add method template payload r).1 ≡ none
      → serves (to_upper method) (shape (split_path template)) r.root ≡ none
  add-free e = elim (Option-cases (serves (to_upper method) (shape (split_path template)) r.root)) [
    | inl n ↦ n
    | inr (old, t) ↦ elim ((add_taken method template payload r t).1 e) [ ]
  ]

  add-adds :
      (j : Str) (ps : List Part)
      → (add method template payload r).1 ≡ none
      → serves j ps (add method template payload r).0.root ≡ (
          if same_shape (shape (split_path template)) ps && to_upper method == j
          then some (entry payload (names_of (split_path template)))
          else serves j ps r.root)
  add-adds j ps e = (add_fresh method template payload r j ps (add-free e)).1

  add-keeps :
      (j : Str) (ps : List Part) (old : RouteEntry T)
      → (add method template payload r).1 ≡ none
      → serves j ps r.root ≡ some old
      → serves j ps (add method template payload r).0.root ≡ some old
  add-keeps j ps old e t =
      let segs = shape (split_path template) in
      elim (Bool-cases (same_shape segs ps && to_upper method == j)) [
        | inl b ↦
            let same : same_shape segs ps ≡ true = ground (arith, b) in
            let named : to_upper method == j ≡ true = ground (arith, b) in
            let free : serves j ps r.root ≡ none =
              subst (λ q. serves j q r.root ≡ none) ((same_shape_iff segs ps).0 same)
                (subst (λ m. serves m segs r.root ≡ none)
                  ((same_str_iff (to_upper method) j).0 named) (add-free e)) in
            cc (free, t)
        | inr b ↦ add-adds j ps e ∙ rw (b) t
      ]

upper_options : to_upper options ≡ options
unfolding to_upper lit
upper_options = refl

module _ {H T : Type 0} (instances : Map Str (Instance H Route)) (terminal : List Str → H)
    (bind : Route → H → T) (m : Map Str PathInfo) where
  -- The synthetic route of a path, by what is known of the path.
  abbrev pub planned : Str → Option Route
  planned p = route_of_info instances p (lookup p m)

  -- A router serves OPTIONS at a path by its synthetic route: with the middleware of the route, around
  -- the answer that tells the methods.
  abbrev pub Laid : Router T → Str → Route → Type 0
  Laid router p r =
      (h : H) × (assemble r.middleware instances r (terminal (allow_of instances (lookup p m)))
        ≡ ok h)
      × (serves options (shape (split_path p)) router.root
          ≡ some (entry (bind r h) (names_of (split_path p))))

  -- What the router serves once the synthetic routes of the paths have been added.
  pub record Serving (ps : List Str) (before after : Router T) : Type 0 where
    pub kept :
        (j : Str) (qs : List Part) (e : RouteEntry T)
        → serves j qs before.root ≡ some e
        → serves j qs after.root ≡ some e
    pub added : (p : Str) (r : Route) → In p ps → planned p ≡ some r → Laid after p r
    pub others :
        (j : Str) (qs : List Part)
        → ((p : Str) (r : Route)
            → In p ps
            → planned p ≡ some r
            → same_shape (shape (split_path p)) qs && options == j ≡ false)
        → serves j qs after.root ≡ serves j qs before.root

  if-some : {A : Type 0} (b : Bool) (x : A) {r : A} → (if b then none else some x) ≡ some r → x ≡ r
  if-some true x e = cc
  if-some false x e = ground (arith, e)

  planned-path :
      (p : Str) (o : Option PathInfo) (r : Route)
      → route_of_info instances p o ≡ some r
      → r.gateway_path ≡ p
  planned-path p none r e = cc
  planned-path p (some pi) r e = sym (ap (λ x. x.gateway_path) (if-some _ _ e))

  some-same : {A : Type 0} {o : Option A} {x y : A} → o ≡ some x → o ≡ some y → x ≡ y
  some-same e f = ground (arith, e, f)

  unplanned-Serving :
      (p : Str) (ps : List Str) (router out : Router T)
      → planned p ≡ none
      → Serving ps router out
      → Serving (p ∷ ps) router out
  unplanned-Serving p ps router out n ih = record {
    kept = ih.kept;
    added = λ q r i w. elim i [
      | there i' ↦ ih.added q r i' w
      | here same ↦
          let none_here : planned q ≡ none = subst (λ x. planned x ≡ none) (sym same) n in
          cc (none_here, w)
    ];
    others = λ j qs f. ih.others j qs (λ q r i w. f q r (there i) w);
  }

  module _ (p : Str) (ps : List Str) (router next out : Router T) (r : Route) (h : H)
      (wanted : planned p ≡ some r)
      (chained : assemble r.middleware instances r (terminal (allow_of instances (lookup p m)))
        ≡ ok h)
      (done : add options p (bind r h) router ≡ (next, none)) where
    accepted : (add options p (bind r h) router).1 ≡ none
    accepted = ap (λ x. x.1) done

    served-here :
        serves options (shape (split_path p)) next.root
        ≡ some (entry (bind r h) (names_of (split_path p)))
    served-here =
        let segs = shape (split_path p) in
        let own : same_shape segs segs ≡ true = (same_shape_iff segs segs).1 refl in
        let upper : to_upper options == options ≡ true =
          ap (λ x. x == options) upper_options ∙ same_str_refl options in
        ap (λ x. serves options segs x.0.root) (sym done)
        ∙ add-adds options p (bind r h) router options segs accepted
        ∙ rw (own, upper) refl

    planned-Serving : Serving ps next out → Serving (p ∷ ps) router out
    planned-Serving ih = record {
      kept = λ j qs e t. ih.kept j qs e (
          ap (λ x. serves j qs x.0.root) (sym done)
          ∙ add-keeps options p (bind r h) router j qs e accepted t);
      added = λ q r' i w. elim i [
        | there i' ↦ ih.added q r' i' w
        | here same ↦
            let ours = subst (λ x. planned x ≡ some r') same w in
            subst (λ x. Laid out x r') (sym same)
              (subst (Laid out p) (some-same wanted ours)
                (h, chained, ih.kept options (shape (split_path p)) _ served-here))
      ];
      others = λ j qs f.
          ih.others j qs (λ q r' i w. f q r' (there i) w)
          ∙ ap (λ x. serves j qs x.0.root) (sym done)
          ∙ add-adds options p (bind r h) router j qs accepted
          ∙ ap
              (λ u.
                if same_shape (shape (split_path p)) qs && u == j
                then some (entry (bind r h) (names_of (split_path p)))
                else serves j qs router.root)
              upper_options
          ∙ rw (f p r (here refl) wanted) refl;
    }

  -- The steps of the loop.
  abbrev Loop : List Str → Type 0
  Loop ps =
      (router : Router T)
      → (add_preflights instances terminal bind m ps router).1 ≡ none
      → Serving ps router (add_preflights instances terminal bind m ps router).0

  module _ (p : Str) (ps : List Str) (router : Router T) (ih : Loop ps) where
    abbrev rest : Router T → Router T × Option BuildError
    rest = add_preflights instances terminal bind m ps

    after_add-Serving :
        (r : Route) (h : H) (res : Router T × Option ConflictError)
        → planned p ≡ some r
        → assemble r.middleware instances r (terminal (allow_of instances (lookup p m))) ≡ ok h
        → add options p (bind r h) router ≡ res
        → (after_add instances terminal bind rest res).1 ≡ none
        → Serving (p ∷ ps) router (after_add instances terminal bind rest res).0
    after_add-Serving r h (next, some c) w a d e = cc
    after_add-Serving r h (next, none) w a d e =
        planned-Serving p ps router next (rest next).0 r h w a d (ih next e)

    add_assembled-Serving :
        (r : Route) (o : Assembled H)
        → planned p ≡ some r
        → assemble r.middleware instances r (terminal (allow_of instances (lookup p m))) ≡ o
        → (add_assembled instances terminal bind rest r router o).1 ≡ none
        → Serving (p ∷ ps) router (add_assembled instances terminal bind rest r router o).0
    add_assembled-Serving r (err x) w a e = cc
    add_assembled-Serving r (ok h) w a e =
        after_add-Serving r h (add options r.gateway_path (bind r h) router) w a
          (ap (λ q. add options q (bind r h) router) (sym (planned-path p (lookup p m) r w))) e

    add_preflight-Serving :
        (o : Option Route)
        → planned p ≡ o
        → (add_preflight instances terminal bind rest (allow_of instances (lookup p m)) router o).1
          ≡ none
        → Serving
            (p ∷ ps)
            router
            (add_preflight instances terminal bind rest
              (allow_of instances (lookup p m))
              router
              o).0
    add_preflight-Serving none w e = unplanned-Serving p ps router (rest router).0 w (ih router e)
    add_preflight-Serving (some r) w e =
        add_assembled-Serving r
          (assemble r.middleware instances r (terminal (allow_of instances (lookup p m)))) w refl e

  pub add_preflights-Serving : (ps : List Str) → Loop ps
  unfolding add_preflights
  add_preflights-Serving [] router e = record {
    kept = λ j qs o t. t;
    added = λ p r i w. elim i [ ];
    others = λ j qs f. refl;
  }
  add_preflights-Serving (p ∷ ps) router e =
      add_preflight-Serving p ps router (add_preflights-Serving ps) (planned p) refl e
