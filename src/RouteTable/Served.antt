-- ===== src/RouteTable/Served.antt =====
-- What holds of the routes of a table that was built: their origin, their slots and their methods.
use nina.Prelude.Map.{Map, lookup}
use nina.Prelude.{
  ℕ, zero, suc, ◌≡◌, inl, inr, refl, sym, ap, subst, Bool, true, false, Option, none, some, List,
  [], ◌∷◌, arith, Str, str_eq, In, here, there, Bool-cases,
}
use nina.RouteTable.Build.{
  Operation, Backend, Override, Expose, Config, Route, ExposedOp, BuildError, Result, ok, err,
  ◌>>=◌, Acc, append_route, backend_by_name, route_of, override_of, take_op, take_ops, take_expose,
  take_exposes, selected, some_matched, found, check_all_params, claim_slots, Table, empty_acc,
  finish, build,
}
use nina.RouteTable.Glob.{selects}

pub bind-eq-ok :
    {A B : Type 0} (m : Result A) (k : A → Result B) {b : B}
    → (m >>= k) ≡ ok b
    → (a : A) × (m ≡ ok a) × (k a ≡ ok b)
bind-eq-ok (ok a) k e = (a, refl, e)
bind-eq-ok (err x) k e = cc

found-eq-ok : {A : Type 0} (x : BuildError) (o : Option A) {a : A} → found x o ≡ ok a → o ≡ some a
found-eq-ok x none e = cc
found-eq-ok x (some b) e = ground arith

ok-injective : {A : Type 0} {a b : A} → ok a ≡ ok b → a ≡ b
ok-injective {A} {a} e = ap (from_ok a) e
  where
    from_ok : A → Result A → A
    from_ok d (ok x) = x
    from_ok d (err x) = d

selected-eq-ok :
    (i : ℕ) (e : Expose) (op : Operation) {chosen : Bool}
    → selected i e op ≡ ok chosen
    → selects op.op_id e.include e.exclude ≡ some chosen
selected-eq-ok i e op eq = ground arith

-- Where a route comes from: an operation of the backend's spec that an expose entry selects and
-- does not disable.
pub record IsRouteOf (cfg : Config) (specs : Map Str (List Operation)) (op : Operation) (r : Route)
    : Type 0 where
  pub entry : Expose
  pub listed : In entry cfg.expose
  pub backend : Backend
  pub named : backend_by_name entry.backend cfg.backends ≡ some backend
  pub operations : List Operation
  pub loaded : lookup entry.backend specs ≡ some operations
  pub of_spec : In op operations
  pub chosen : selects op.op_id entry.include entry.exclude ≡ some true
  pub override : Override
  pub overridden : override ≡ override_of (lookup op.op_id entry.overrides)
  pub enabled : override.disabled ≡ false
  pub same : r ≡ route_of cfg entry backend op override

-- What every appended route keeps, the loops keep.
module _ (cfg : Config) (specs : Map Str (List Operation)) (P : Acc → Type 0)
    (keep : (op : Operation) (r : Route) (acc : Acc)
      → IsRouteOf cfg specs op r
      → P acc
      → P (append_route op r acc)) where
  module _ (i : ℕ) (e : Expose) (listed : In e cfg.expose) (b : Backend)
      (named : backend_by_name e.backend cfg.backends ≡ some b) (all_ops : List Operation)
      (loaded : lookup e.backend specs ≡ some all_ops) where
    take_op_keeps :
        (op : Operation) (chosen : Bool) (s : Acc × ℕ)
        → In op all_ops
        → selects op.op_id e.include e.exclude ≡ some chosen
        → P s.0
        → P (take_op cfg e b op chosen s).0
    unfolding take_op
    take_op_keeps op false s of_spec sel p = p
    take_op_keeps op true (acc, matched) of_spec sel p =
        let ov = override_of (lookup op.op_id e.overrides) in
        elim (Bool-cases ov.disabled) [
          | inl off ↦ rw off p
          | inr on ↦ rw on (
              keep op (route_of cfg e b op ov) acc
                (record {
                  entry = e;
                  listed = listed;
                  backend = b;
                  named = named;
                  operations = all_ops;
                  loaded = loaded;
                  of_spec = of_spec;
                  chosen = sel;
                  override = ov;
                  overridden = refl;
                  enabled = on;
                  same = refl;
                })
                p)
        ]

    take_ops_keeps :
        (ops : List Operation) (s : Acc × ℕ) {s' : Acc × ℕ}
        → ((op : Operation) → In op ops → In op all_ops)
        → take_ops cfg i e b ops s ≡ ok s'
        → P s.0
        → P s'.0
    unfolding take_ops
    take_ops_keeps [] s sub eq p = subst (λ x. P x.0) (ok-injective eq) p
    take_ops_keeps (op ∷ ops) s sub eq p =
        let (chosen, sel, rest) = bind-eq-ok (selected i e op) _ eq in
        take_ops_keeps ops (take_op cfg e b op chosen s) (λ o j. sub o (there j)) rest
          (take_op_keeps op chosen s (sub op (here refl)) (selected-eq-ok i e op sel) p)

  take_expose_keeps :
      (i : ℕ) (e : Expose) (acc : Acc) {acc' : Acc}
      → In e cfg.expose
      → take_expose cfg specs i e acc ≡ ok acc'
      → P acc
      → P acc'
  unfolding take_expose
  take_expose_keeps i e acc listed eq p =
      let (b, named, eq1) = bind-eq-ok _ _ eq in
      let (ops, loaded, eq2) = bind-eq-ok _ _ eq1 in
      let (s, taken, eq3) =
        bind-eq-ok (take_ops cfg i e b ops (acc, 0)) (some_matched i e ops) eq2 in
      some_matched_keeps i e ops s eq3 (
        take_ops_keeps i e listed b (found-eq-ok _ _ named) ops (found-eq-ok _ _ loaded) ops
          (acc, 0) (λ o j. j) taken p)
    where
      some_matched_keeps :
          (n : ℕ) (x : Expose) (ops : List Operation) (s : Acc × ℕ) {a : Acc}
          → some_matched n x ops s ≡ ok a
          → P s.0
          → P a
      some_matched_keeps n x ops (a, zero) q h = cc
      some_matched_keeps n x ops (a, suc k) q h = subst P (ok-injective q) h

  pub take_exposes_keeps :
      (i : ℕ) (es : List Expose) (acc : Acc) {acc' : Acc}
      → ((e : Expose) → In e es → In e cfg.expose)
      → take_exposes cfg specs i es acc ≡ ok acc'
      → P acc
      → P acc'
  unfolding take_exposes
  take_exposes_keeps i [] acc sub eq p = subst P (ok-injective eq) p
  take_exposes_keeps i (e ∷ es) acc sub eq p =
      let (acc1, taken, rest) = bind-eq-ok (take_expose cfg specs i e acc) _ eq in
      take_exposes_keeps (suc i) es acc1 (λ x j. sub x (there j)) rest
        (take_expose_keeps i e acc (sub e (here refl)) taken p)

-- The steps of a build that succeeds.
pub record Built {D : Type 0} (merge : List ExposedOp → Option D) (cfg : Config)
    (specs : Map Str (List Operation)) (t : Table D) : Type 0 where
  pub acc : Acc
  pub spec : D
  pub taken : take_exposes cfg specs 0 cfg.expose empty_acc ≡ ok acc
  pub params : check_all_params acc.routes ≡ ok tt
  pub claimed : claim_slots [] acc.routes ≡ ok tt
  pub merged : merge acc.exposed ≡ some spec
  pub table : t ≡ finish acc spec

pub build-Built :
    {D : Type 0} (merge : List ExposedOp → Option D) (cfg : Config)
    (specs : Map Str (List Operation)) {t : Table D}
    → build merge cfg specs ≡ ok t
    → Built merge cfg specs t
unfolding build
build-Built merge cfg specs eq =
    let (acc, taken, e1) = bind-eq-ok (take_exposes cfg specs 0 cfg.expose empty_acc) _ eq in
    let (u, params, e2) = bind-eq-ok (check_all_params acc.routes) _ e1 in
    let (v, claimed, e3) = bind-eq-ok (claim_slots [] acc.routes) _ e2 in
    let (spec, merged, e4) = bind-eq-ok _ _ e3 in
    record {
      acc = acc;
      spec = spec;
      taken = taken;
      params = params;
      claimed = claimed;
      merged = found-eq-ok _ _ merged;
      table = sym (ok-injective e4);
    }
