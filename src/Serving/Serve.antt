-- ===== src/Serving/Serve.antt =====
-- internal/runtime/server.go: ServeHTTP from the runtime that it acquires to the response, with
-- recover.
use nina.Prelude.{
  ℕ, zero, suc, ◌+◌, Bool, true, false, Option, none, some, List, ◌∷◌, if◌then◌else◌, Str, lit,
}
use nina.Prelude.Decimal.{decimal}
use nina.Http.{set_header}
use nina.Http.Writing.{Writer, Action, change, act, act_all, http_error, fresh_writer}
use nina.Router.{Param, Result, match}
use nina.Reqctx.{Info, new_info, Request, client_ip}
use nina.Scanguard.Guard.{Ip, Net, Guard, Store, blocked, miss}
use nina.Httperr.{Rendering, write_problem}
use nina.Serving.{
  Recorder, new_recorder, record_all, Outcome, returned, panicked, aborted, Ran, BoundRoute,
  Running, join_comma, request_id, whole_seconds, blocked_problem, method_problem, unknown_problem,
  panic_problem, Line, finish,
}

module _ (rend : Rendering) (net : Net) (store : Store) (S : Type 0) where
  -- What a request finds and leaves: the bans and the state of the middleware.
  pub record World : Type 0 where
    pub bans : store.State
    pub state : S

  -- What ServeHTTP does with the recorder, up to its return or a panic.
  pub record Dispatched : Type 0 where
    pub actions : List Action
    pub outcome : Outcome
    pub info : Info
    pub world : World

  abbrev pub answered : Info → World → List Action → Dispatched
  answered info w actions = record { actions = actions; outcome = returned; info = info; world = w }

  abbrev pub with_match : BoundRoute S → List Param → Info → Info
  with_match br params info = record info {
    params = params;
    operation_id = br.route.id;
    backend = br.route.backend.name;
    template = br.route.gateway_path;
  }

  abbrev pub ran_in : World → Ran S → Dispatched
  ran_in w ran = record {
    actions = ran.actions;
    outcome = ran.outcome;
    info = ran.info;
    world = record w { state = ran.state };
  }

  -- A true 404 counts with the guard.
  abbrev pub missed : Option Guard → ℕ → Str → Str → store.State → store.State
  missed none now ip path bans = bans
  missed (some g) now ip path bans = miss net store g now ip path bans

  abbrev pub refuse_method : Info → World → List Str → Dispatched
  refuse_method info w allow = answered info w (
      change (set_header (lit "Allow") (join_comma allow))
      ∷ write_problem rend (some info) (method_problem allow))

  abbrev pub not_found : Option Guard → ℕ → Request → Info → World → Dispatched
  not_found guard now r info w =
      answered info (record w { bans = missed guard now info.client_ip r.path w.bans })
        (write_problem rend (some info) (unknown_problem r))

  -- The match and what follows it.
  unfoldable pub dispatch_match :
      Option Guard → ℕ → Request → Info → World → Result (BoundRoute S) → Dispatched
  dispatch_match guard now r info w m = elim m.found [
    | some (br, params) ↦ ran_in w (br.handler now r (with_match br params info) w.state)
    | none ↦ if m.path_matched then refuse_method info w m.allow else not_found guard now r info w
  ]

  abbrev pub refuse_client : Info → World → ℕ → Dispatched
  refuse_client info w left =
      let marked : Info = record info { blocked = true } in
      answered marked w (
        change (set_header (lit "Retry-After") (decimal (whole_seconds left)))
        ∷ write_problem rend (some marked) blocked_problem)

  abbrev pub ask_guard : Option Guard → ℕ → Str → store.State → store.State × (ℕ × Bool)
  ask_guard none now ip bans = (bans, (0, false))
  ask_guard (some g) now ip bans = blocked net store g now ip bans

  unfoldable pub dispatch : Running S → ℕ → Request → Info → World → Dispatched
  dispatch rt now r info w =
      let (bans, (left, banned)) = ask_guard rt.scan_guard now info.client_ip w.bans in
      let asked : World = record w { bans = bans } in
      if banned
      then refuse_client info asked left
      else dispatch_match rt.scan_guard now r info asked (match r.method r.escaped_path rt.router)

  -- recover: the recorder after it, and whether the panic goes on.
  abbrev pub recovered : Outcome → Info → Recorder → Recorder × Bool
  recovered returned info rec = (rec, false)
  recovered aborted info rec = (rec, true)
  recovered panicked info rec = (
    (if rec.wrote then rec else record_all rec (write_problem rend (some info) panic_problem)),
    false,
  )

  pub record Served : Type 0 where
    pub writer : Writer
    pub line : Option Line
    pub info : Option Info
    pub aborts : Bool
    pub world : World

  abbrev pub concluded : Request → Recorder → Dispatched → Served
  concluded r rec d =
      let (after, aborts) = recovered d.outcome d.info (record_all rec d.actions) in
      record {
        writer = after.writer;
        line = some (finish after r d.info);
        info = some d.info;
        aborts = aborts;
        world = d.world;
      }

  -- ServeHTTP with the runtime that it has acquired, which it releases as it returns or panics.
  unfoldable pub serve_on : List (Ip × ℕ) → Running S → ℕ → Str → Request → World → Served
  serve_on trusted rt now made r w =
      let info = new_info (request_id r made) now (client_ip net r trusted) in
      let greeted = act fresh_writer (change (set_header (lit "X-Request-Id") info.request_id)) in
      concluded r (new_recorder greeted) (dispatch rt now r info w)

  -- The loop that loads the runtime until it can be acquired: load `i` finds no runtime, or one with
  -- whether Acquire takes it.
  unfoldable pub acquire_loop : ℕ → ℕ → (ℕ → Option (Running S × Bool)) → Option (Running S)
  acquire_loop zero i loads = none
  acquire_loop (suc left) i loads =
      let rest = acquire_loop left (i + 1) loads in
      elim (loads i) [ none ↦ none | some (rt, taken) ↦ if taken then some rt else rest ]

  abbrev pub not_ready : World → Served
  not_ready w = record {
    writer = act_all fresh_writer (http_error (lit "gateway is not ready") 503);
    line = none;
    info = none;
    aborts = false;
    world = w;
  }

  abbrev serve_acquired : List (Ip × ℕ) → Option (Running S) → ℕ → Str → Request → World → Served
  serve_acquired trusted none now made r w = not_ready w
  serve_acquired trusted (some rt) now made r w = serve_on trusted rt now made r w

  -- ServeHTTP
  unfoldable pub serve :
      List (Ip × ℕ) → (ℕ → Option (Running S × Bool)) → ℕ → Str → Request → World → Served
  serve trusted loads now made r w = serve_acquired trusted (acquire_loop 8 0 loads) now made r w
