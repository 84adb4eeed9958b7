-- ===== src/Serving/Answers.antt =====
-- What ServeHTTP answers, by what the guard, the router and the handler say.
use nina.Prelude.{
  ℕ, ◌+◌, ◌*◌, ◌<◌, arith, ◌≡◌, ◌⊎◌, inl, inr, Bool-cases, refl, sym, subst, ◌∙◌, ap, Bool, true,
  false, ◌||◌, none, some, List, [], ◌∷◌, ◌++◌, map, if◌then◌else◌, Str, lit, All,
}
use nina.Prelude.Decimal.{decimal, value_from, value-decimal}
use nina.Http.{Header, set_header}
use nina.Http.Writing.{
  Writer, change, act, act_all, on_the_wire, fresh_writer, on_the_wire-sent, IsFinal,
}
use nina.Router.{Param, Result, match}
use nina.Reqctx.{Info, new_info, Request, client_ip}
use nina.Scanguard.Guard.{Ip, Net, Store}
use nina.Httperr.{Problem, Rendering, write_problem}
use nina.Httperr.Started.{is_answer, write_problem-sends, write_problem-IsFinal}
use nina.Serving.{
  new_recorder, record_all, returned, BoundRoute, Running, request_id, whole_seconds, Line, finish,
}
use nina.Serving.Recording.{record_all-tells}
use nina.Serving.Serve.{
  World, refuse_client, refuse_method, not_found, ran_in, with_match, dispatch, dispatch_match,
  ask_guard, missed, concluded, serve_on, Served,
}

-- The Retry-After header, read back, is less than a millisecond short of the time that is left, and
-- less than a second more.
pub retry_after-bounds :
    (left : ℕ)
    → let shown = value_from 0 (decimal (whole_seconds left)) in
      (left < shown * 1000000000 + 1000000) × (shown * 1000000000 < left + 1000000000)
retry_after-bounds left = rw (value-decimal (whole_seconds left)) (omega arith, omega arith)

-- Changes of the headers before a problem document send nothing.
changed-sends :
    (rend : Rendering) (info : Info) (p : Problem) (fs : List (Header → Header)) (w : Writer)
    → w.sent ≡ none
    → is_answer p.status ≡ true
    → (h : Header) × ((act_all w (map change fs ++ write_problem rend (some info) p)).sent
        ≡ some (p.status, h))
unfolding act_all act
changed-sends rend info p [] w s n = write_problem-sends rend (some info) p w s n
changed-sends rend info p (f ∷ fs) w s n = changed-sends rend info p fs (act w (change f)) s n

-- Nor do they announce anything.
changed-IsFinal :
    (rend : Rendering) (info : Info) (p : Problem) (fs : List (Header → Header))
    → is_answer p.status ≡ true
    → All IsFinal (map change fs ++ write_problem rend (some info) p)
changed-IsFinal rend info p [] n = write_problem-IsFinal rend (some info) p n
changed-IsFinal rend info p (f ∷ fs) n = (tt, changed-IsFinal rend info p fs n)

refusal-status :
    (rend : Rendering) (info : Info) (p : Problem) (fs : List (Header → Header)) (w : Writer)
    → w.sent ≡ none
    → w.body ≡ []
    → is_answer p.status ≡ true
    → let actions = map change fs ++ write_problem rend (some info) p in
      (on_the_wire (record_all (new_recorder w) actions).writer).0 ≡ p.status
refusal-status rend info p fs w s b n =
    let actions = map change fs ++ write_problem rend (some info) p in
    let (e, _, _, _) = record_all-tells w actions (changed-IsFinal rend info p fs n) s b in
    let (h, sent) = changed-sends rend info p fs w s n in
    ap (λ v. (on_the_wire v).0) e ∙ ap (λ h. h.0) (on_the_wire-sent _ (p.status, h) sent)

module _ (rend : Rendering) (net : Net) (store : Store) (S : Type 0) where
  abbrev Out : Type 0
  Out = Served rend net store S

  abbrev State : Type 0
  State = World rend net store S

  -- An answer of the gateway's own: its status, and what is left of the bans.
  pub record Refused (code : ℕ) (left : store.State) (w : State) (out : Out) : Type 0 where
    pub status : (on_the_wire out.writer).0 ≡ code
    pub logged : (l : Line) × (out.line ≡ some l) × (l.status ≡ code)
    pub bans : out.world.bans ≡ left
    pub state : out.world.state ≡ w.state
    pub returns : out.aborts ≡ false

  concluded-Refused :
      (r : Request) (greeted : Writer) (info : Info) (w w' : State) (fs : List (Header → Header))
      (p : Problem)
      → greeted.sent ≡ none
      → greeted.body ≡ []
      → is_answer p.status ≡ true
      → w'.state ≡ w.state
      → Refused p.status w'.bans w (
          concluded rend net store S r (new_recorder greeted) (record {
            actions = map change fs ++ write_problem rend (some info) p;
            outcome = returned;
            info = info;
            world = w';
          }))
  unfolding finish
  concluded-Refused r greeted info w w' fs p s b n st =
      let actions = map change fs ++ write_problem rend (some info) p in
      let (_, told, _, _) =
        record_all-tells greeted actions (changed-IsFinal rend info p fs n) s b in
      let code = refusal-status rend info p fs greeted s b n in
      record {
        status = code;
        logged = (_, refl, told ∙ code);
        bans = refl;
        state = st;
        returns = refl;
      }

  module _ (trusted : List (Ip × ℕ)) (rt : Running S) (now : ℕ) (made : Str) (r : Request)
      (w : State) where
    abbrev pub first_info : Info
    first_info = new_info (request_id r made) now (client_ip net r trusted)

    -- What the guard says of the client, and the router of the path.
    abbrev pub guarded : store.State × (ℕ × Bool)
    guarded = ask_guard rend net store S rt.scan_guard now first_info.client_ip w.bans

    abbrev pub matched : Result (BoundRoute S)
    matched = match r.method r.escaped_path rt.router

    abbrev pub out_of : Out
    out_of = serve_on rend net store S trusted rt now made r w

    abbrev pub greeted : Writer
    greeted = act fresh_writer (change (set_header (lit "X-Request-Id") (first_info.request_id)))

    abbrev pub asked : State
    asked = record w { bans = guarded.0 }

    dispatch-banned :
        guarded.1.1 ≡ true
        → dispatch rend net store S rt now r first_info w
          ≡ refuse_client rend net store S first_info asked guarded.1.0
    unfolding dispatch
    dispatch-banned b = ground (arith, b)

    pub dispatch-free :
        guarded.1.1 ≡ false
        → dispatch rend net store S rt now r first_info w
          ≡ dispatch_match rend net store S rt.scan_guard now r first_info asked matched
    unfolding dispatch
    dispatch-free b = ground (arith, b)

    dispatch_match-met :
        matched.found ≡ none
        → matched.path_matched ≡ true
        → dispatch_match rend net store S rt.scan_guard now r first_info asked matched
          ≡ refuse_method rend net store S first_info asked matched.allow
    unfolding dispatch_match
    dispatch_match-met e m = ground (arith, e, m)

    dispatch_match-unknown :
        matched.found ≡ none
        → matched.path_matched ≡ false
        → dispatch_match rend net store S rt.scan_guard now r first_info asked matched
          ≡ not_found rend net store S rt.scan_guard now r first_info asked
    unfolding dispatch_match
    dispatch_match-unknown e m = ground (arith, e, m)

    pub dispatch_match-found :
        (br : BoundRoute S) (params : List Param)
        → matched.found ≡ some (br, params)
        → dispatch_match rend net store S rt.scan_guard now r first_info asked matched
          ≡ ran_in rend net store S asked
              (br.handler now r (with_match rend net store S br params first_info) asked.state)
    unfolding dispatch_match
    dispatch_match-found br params e = rw (e) refl

    banned-Refused : guarded.1.1 ≡ true → Refused 429 guarded.0 w out_of
    unfolding serve_on act
    banned-Refused b =
        subst (λ d. Refused 429 guarded.0 w (concluded rend net store S r (new_recorder greeted) d))
          (sym (dispatch-banned b))
          (concluded-Refused r greeted _ w asked (_ ∷ []) _ refl refl refl refl)

    -- What the guard keeps once the request has been refused: only a path that the gateway does not
    -- know counts as a miss.
    abbrev pub left_after : store.State
    left_after =
        if guarded.1.1 || matched.path_matched
        then guarded.0
        else missed rend net store S rt.scan_guard now first_info.client_ip r.path guarded.0

    abbrev pub refused_code : ℕ
    refused_code = if guarded.1.1 then 429 else if matched.path_matched then 405 else 404

    met-Refused :
        guarded.1.1 ≡ false
        → matched.found ≡ none
        → matched.path_matched ≡ true
        → Refused 405 guarded.0 w out_of
    unfolding serve_on act
    met-Refused b e m =
        subst (λ d. Refused 405 guarded.0 w (concluded rend net store S r (new_recorder greeted) d))
          (sym (dispatch-free b ∙ dispatch_match-met e m))
          (concluded-Refused r greeted _ w asked (_ ∷ []) _ refl refl refl refl)

    unknown-Refused :
        guarded.1.1 ≡ false
        → matched.found ≡ none
        → matched.path_matched ≡ false
        → Refused 404
            (missed rend net store S rt.scan_guard now first_info.client_ip r.path guarded.0)
            w
            out_of
    unfolding serve_on act
    unknown-Refused b e m =
        subst
          (λ d.
            Refused 404
              (missed rend net store S rt.scan_guard now first_info.client_ip r.path guarded.0) w
              (concluded rend net store S r (new_recorder greeted) d))
          (sym (dispatch-free b ∙ dispatch_match-unknown e m))
          (concluded-Refused r greeted _ w _ [] _ refl refl refl refl)

    -- A request that the guard blocks, or that no route takes, is answered by the gateway itself:
    -- with 429 if it is blocked, and otherwise with 405 if its path is served for other methods and
    -- with 404 if not. No handler runs, and only the 404 is counted as a miss of the client's. The
    -- status is the one that is logged.
    pub serve_on-refuses :
        (guarded.1.1 ≡ true) ⊎ (matched.found ≡ none) → Refused refused_code left_after w out_of
    serve_on-refuses c = elim (Bool-cases guarded.1.1) [
      | inl b ↦ rw (b) (banned-Refused b)
      | inr b ↦ elim c [
        | inl b' ↦ cc
        | inr e ↦ elim (Bool-cases matched.path_matched) [
          | inl m ↦ rw (b, m) (met-Refused b e m)
          | inr m ↦ rw (b, m) (unknown-Refused b e m)
        ]
      ]
    ]
