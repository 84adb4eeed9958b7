-- ===== src/Mw/RateLimit/Limiting.antt =====
-- Which requests the rate limit lets through, and what the others are answered.
use nina.Prelude.{
  ℕ, arith, ◌≡◌, refl, sym, ◌∙◌, ap, subst, Bool, true, false, Option, none, some, List, ◌++◌, Str,
  if◌then◌else◌, not,
}
use nina.Http.{Header}
use nina.Http.Writing.{Writer, Action, act, act_all, act_all-append}
use nina.Reqctx.{Info, Request}
use nina.Httperr.{Problem, Rendering, write_problem}
use nina.Httperr.Started.{is_answer, write_problem-sends}
use nina.Serving.{returned, Ran, Handler}
use nina.Store.{Decision}
use nina.Mw.RateLimit.{
  Instance, build_key, limit_headers, retry_header, rate_limited, decided, exceeded, after,
}

-- Whether a decision, or the lack of one, lets the request through.
abbrev pub admits : Option Decision → Bool
admits none = false
admits (some d) = d.allowed

abbrev pub stop_status : Option Decision → ℕ
stop_status none = 503
stop_status (some d) = 429

-- Actions that send nothing.
abbrev IsQuiet : List Action → Type 0
IsQuiet actions = (w : Writer) → w.sent ≡ none → (act_all w actions).sent ≡ none

limit_headers-IsQuiet : (b : Bool) (d : Decision) → IsQuiet (limit_headers b d)
unfolding act_all act
limit_headers-IsQuiet false d w e = e
limit_headers-IsQuiet true d w e = e

retry_header-IsQuiet : (d : Decision) → IsQuiet (retry_header d)
unfolding act_all act
retry_header-IsQuiet d w e = ground (arith, e)

if-not-false : {A : Type 0} (b : Bool) (x y : A) → b ≡ false → (if not b then x else y) ≡ x
if-not-false b x y e = rw (e) refl

if-not-true : {A : Type 0} (b : Bool) (x y : A) → b ≡ true → (if not b then x else y) ≡ y
if-not-true b x y e = rw (e) refl

quiet-sends :
    (rend : Rendering) (info : Option Info) (p : Problem) (early bs : List Action) (w : Writer)
    → IsQuiet early
    → IsQuiet bs
    → w.sent ≡ none
    → is_answer p.status ≡ true
    → (h : Header) × ((act_all w (early ++ bs ++ write_problem rend info p)).sent
        ≡ some (p.status, h))
quiet-sends rend info p early bs w qa qb e n =
    let ready = qb (act_all w early) (qa w e) in
    let (h, sent) = write_problem-sends rend info p (act_all (act_all w early) bs) ready n in
    (
      h,
      ap (λ v. v.sent)
            (act_all-append (early ++ bs) (write_problem rend info p) w
              ∙ ap (λ v. act_all v (write_problem rend info p)) (act_all-append early bs w))
          ∙ sent,
    )

module _ (rend : Rendering) (print_duration : ℕ → Str) {S : Type 0} (i : Instance)
    (allow : ℕ → Str → ℕ → ℕ → S → S × Option Decision) (next : Handler S) (now : ℕ) (r : Request)
    (info : Info) (s : S) where
  abbrev pub asked : S × Option Decision
  asked = allow now (build_key i.name i.key_fns r (some info)) i.limit i.window s

  abbrev pub run : Ran S
  run = rate_limited rend print_duration i allow next now r info s

  decided-stops :
      (d : Option Decision) (w : Writer)
      → admits d ≡ false
      → w.sent ≡ none
      → let ran = decided rend print_duration i next now r info (asked.0, d) in
        (h : Header) × ((act_all w ran.actions).sent ≡ some (stop_status d, h))
        × (ran.state ≡ asked.0)
        × (ran.outcome ≡ returned)
  decided-stops none w a e =
      let (h, sent) = write_problem-sends rend (some info) _ w e refl in (h, sent, refl, refl)
  decided-stops (some d) w a e =
      let (h, sent) =
        quiet-sends rend (some info) (exceeded print_duration i) (limit_headers i.headers d)
          (retry_header d) w (limit_headers-IsQuiet i.headers d) (retry_header-IsQuiet d) e refl in
      subst
        (λ (ran : Ran S).
          (h : Header) × ((act_all w ran.actions).sent ≡ some (429, h))
          × (ran.state ≡ asked.0)
          × (ran.outcome ≡ returned))
        (sym (if-not-false d.allowed _ _ a)) (h, sent, refl, refl)

  -- A request that the limiter does not let through never reaches the handler inside: it is answered
  -- with 429, or with 503 if the limiter has failed, and the state is the limiter's.
  pub rate_limited-stops :
      (w : Writer)
      → admits asked.1 ≡ false
      → w.sent ≡ none
      → (h : Header) × ((act_all w run.actions).sent ≡ some (stop_status asked.1, h))
        × (run.state ≡ asked.0)
        × (run.outcome ≡ returned)
  unfolding rate_limited
  rate_limited-stops w a e = decided-stops asked.1 w a e

  -- A request that the limiter lets through is answered by the handler inside, in the state that the
  -- limiter has left, behind the headers that tell the limit and what remains.
  pub rate_limited-passes :
      (d : Decision)
      → asked.1 ≡ some d
      → d.allowed ≡ true
      → run ≡ after (limit_headers i.headers d) (next now r info asked.0)
  unfolding rate_limited
  rate_limited-passes d e a =
      ap (λ o. decided rend print_duration i next now r info (asked.0, o)) e
      ∙ if-not-true d.allowed _ _ a
