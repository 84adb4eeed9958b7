-- ===== src/Serving/Handling.antt =====
-- What ServeHTTP makes of a handler that returns, panics or aborts.
use nina.Prelude.{
  ℕ, arith, ◌≡◌, refl, sym, subst, ◌∙◌, ap, Bool, true, false, not, ◌&&◌, none, some, List, [],
  if◌then◌else◌, Str, is_some, All,
}
use nina.Http.Writing.{Writer, act, act_all, on_the_wire, on_the_wire-sent, IsFinal}
use nina.Router.{Param}
use nina.Reqctx.{Info, Request}
use nina.Scanguard.Guard.{Ip, Net, Store}
use nina.Httperr.{Rendering, write_problem}
use nina.Httperr.Started.{write_problem-sends, write_problem-IsFinal}
use nina.Serving.{
  Recorder, new_recorder, record_all, Outcome, returned, panicked, aborted, Ran, BoundRoute,
  Running, panic_problem, Line, finish,
}
use nina.Serving.Recording.{Knows, record_all-Knows, new-Knows}
use nina.Serving.Serve.{World, Served, ran_in, with_match, recovered, concluded, serve_on}
use nina.Serving.Answers.{
  first_info, guarded, matched, greeted, asked, dispatch-free, dispatch_match-found,
}

abbrev pub is_panicked : Outcome → Bool
is_panicked returned = false
is_panicked panicked = true
is_panicked aborted = false

abbrev pub is_aborted : Outcome → Bool
is_aborted returned = false
is_aborted panicked = false
is_aborted aborted = true

-- The status a client gets for what a handler did to its response.
abbrev pub handled_status : Outcome → Writer → ℕ
handled_status o w = if is_panicked o && not (is_some w.sent) then 500 else (on_the_wire w).0

module _ (rend : Rendering) (info : Info) where
  panicked-status :
      (rec : Recorder)
      → Knows rec
      → rec.wrote ≡ false
      → let after = record_all rec (write_problem rend (some info) panic_problem) in
        (after.status ≡ 500) × ((on_the_wire after.writer).0 ≡ 500)
  panicked-status rec k w =
      let (later, e) =
        record_all-Knows (write_problem rend (some info) panic_problem) rec
          (write_problem-IsFinal rend (some info) panic_problem refl) k in
      let none_sent : rec.writer.sent ≡ none = ground (arith, k.wrote, w) in
      let (h, sent) =
        write_problem-sends rend (some info) panic_problem rec.writer none_sent refl in
      let wire = ap (λ v. (on_the_wire v).0) e ∙ ap (λ h. h.0) (on_the_wire-sent _ (500, h) sent) in
      (later.status ∙ wire, wire)

  -- The recorder after a panic, by whether the response had started.
  either-status :
      (started : Bool) (rec after : Recorder)
      → started ≡ is_some rec.writer.sent
      → rec.status ≡ (on_the_wire rec.writer).0
      → (started ≡ false → (after.status ≡ 500) × ((on_the_wire after.writer).0 ≡ 500))
      → let out = if started then rec else after in
        (out.status ≡ handled_status panicked rec.writer)
        × ((on_the_wire out.writer).0 ≡ handled_status panicked rec.writer)
  either-status true rec after e s f = rw (sym e) (s, refl)
  either-status false rec after e s f = rw (sym e) (f refl)

  recovered-status :
      (net : Net) (store : Store) (S : Type 0) (o : Outcome) (rec : Recorder)
      → Knows rec
      → let (after, aborts) = recovered rend net store S o info rec in
        (after.status ≡ handled_status o rec.writer)
        × ((on_the_wire after.writer).0 ≡ handled_status o rec.writer)
        × (aborts ≡ is_aborted o)
  recovered-status net store S returned rec k = (k.status, refl, refl)
  recovered-status net store S aborted rec k = (k.status, refl, refl)
  recovered-status net store S panicked rec k =
      let after = record_all rec (write_problem rend (some info) panic_problem) in
      let (p, q) = either-status rec.wrote rec after k.wrote k.status (panicked-status rec k) in
      (p, q, refl)

  recovered-returned :
      (net : Net) (store : Store) (S : Type 0) (o : Outcome) (rec : Recorder)
      → o ≡ returned
      → (recovered rend net store S o info rec).0 ≡ rec
  recovered-returned net store S o rec e = rw (e) refl

module _ (rend : Rendering) (net : Net) (store : Store) (S : Type 0) where
  -- A request that a handler has answered.
  pub record Handled (ran : Ran S) (sent : Writer) (left : store.State)
      (out : Served rend net store S) : Type 0 where
    pub status : (on_the_wire out.writer).0 ≡ handled_status ran.outcome sent
    pub logged : (l : Line) × (out.line ≡ some l) × (l.status ≡ handled_status ran.outcome sent)
    pub whole : ran.outcome ≡ returned → out.writer ≡ sent
    pub aborts : out.aborts ≡ is_aborted ran.outcome
    pub state : out.world.state ≡ ran.state
    pub bans : out.world.bans ≡ left

  concluded-Handled :
      (r : Request) (w : Writer) (before : World rend net store S) (ran : Ran S)
      → All IsFinal ran.actions
      → w.sent ≡ none
      → w.body ≡ []
      → Handled ran
          (act_all w ran.actions)
          before.bans
          (concluded rend net store S r (new_recorder w) (ran_in rend net store S before ran))
  unfolding finish
  concluded-Handled r w before ran f s b =
      let (k, e) = record_all-Knows ran.actions (new_recorder w) f (new-Knows w s b) in
      let rec = record_all (new_recorder w) ran.actions in
      let (told, wire, ab) = recovered-status rend ran.info net store S ran.outcome rec k in
      let same = ap (handled_status ran.outcome) e in
      record {
        status = wire ∙ same;
        logged = (_, refl, told ∙ same);
        whole = λ o.
            ap (λ v. v.writer) (recovered-returned rend ran.info net store S ran.outcome rec o) ∙ e;
        aborts = ab;
        state = refl;
        bans = refl;
      }

  module _ (trusted : List (Ip × ℕ)) (rt : Running S) (now : ℕ) (made : Str) (r : Request)
      (w : World rend net store S) where
    -- A request that is not blocked and that a route takes is answered by that route's handler, with
    -- the route's name and parameters in its Info: the client gets what the handler has written if it
    -- returns, and if it panics before it has written anything, status 500, as long as the handler
    -- sends no informational status. A panic is passed on only
    -- if it is http.ErrAbortHandler. The status is the one that is logged.
    pub serve_on-handles :
        (br : BoundRoute S) (params : List Param)
        → (guarded rend net store S trusted rt now made r w).1.1 ≡ false
        → (matched rend net store S trusted rt now made r w).found ≡ some (br, params)
        → let info = first_info rend net store S trusted rt now made r w in
          let ran = br.handler now r (with_match rend net store S br params info) w.state in
          All IsFinal ran.actions
          → Handled ran
              (act_all (greeted rend net store S trusted rt now made r w) ran.actions)
              (guarded rend net store S trusted rt now made r w).0
              (serve_on rend net store S trusted rt now made r w)
    unfolding serve_on act
    serve_on-handles br params b e f =
        let info = first_info rend net store S trusted rt now made r w in
        let ran = br.handler now r (with_match rend net store S br params info) w.state in
        let g = greeted rend net store S trusted rt now made r w in
        subst
          (λ d.
            Handled ran (act_all g ran.actions) (guarded rend net store S trusted rt now made r w).0
              (concluded rend net store S r (new_recorder g) d))
          (sym (
            dispatch-free rend net store S trusted rt now made r w b
            ∙ dispatch_match-found rend net store S trusted rt now made r w br params e))
          (concluded-Handled r g (asked rend net store S trusted rt now made r w) ran f refl refl)
