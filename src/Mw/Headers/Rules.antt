-- ===== src/Mw/Headers/Rules.antt =====
-- When the rules of a response apply.
use nina.Prelude.{
  ℕ, Bool, Str, All, if◌then◌else◌, ◌≡◌, refl, sym, ◌∙◌, ap, true, false, Option, none, some, List,
  [], ◌∷◌, ◌++◌,
}
use nina.Http.{Header, del_all}
use nina.Reqctx.{Info, Request}
use nina.Serving.{Ran, Handler}
use nina.Http.Writing.{
  Writer, Action, change, write_header, write, act, act_all, act_all-sent, header-body, on_the_wire,
  IsFinal,
}
use nina.Mw.Headers.{HeaderRules, apply, respond, headers, no_work, set_rules, add_rules}

respond-written :
    (rules : HeaderRules) (actions : List Action) → respond rules true actions ≡ actions
unfolding respond
respond-written rules [] = refl
respond-written rules (change f ∷ rest) = ap (λ r. change f ∷ r) (respond-written rules rest)
respond-written rules (write_header c ∷ rest) =
    ap (λ r. write_header c ∷ r) (respond-written rules rest)
respond-written rules (write b ∷ rest) = ap (λ r. write b ∷ r) (respond-written rules rest)

-- The body does not depend on the headers.
act_all-body :
    (actions : List Action) (w v : Writer)
    → w.body ≡ v.body
    → (act_all w actions).body ≡ (act_all v actions).body
unfolding act_all act
act_all-body [] w v e = e
act_all-body (change f ∷ rest) w v e = act_all-body rest _ _ e
act_all-body (write_header c ∷ rest) w v e =
    act_all-body rest _ _ (header-body c w ∙ e ∙ sym (header-body c v))
act_all-body (write b ∷ rest) w v e = act_all-body rest _ _ (ap (λ s. s ++ b) e)

-- What has been sent, with the rules applied to its headers.
abbrev pub ruled : HeaderRules → Option (ℕ × Header) → Option (ℕ × Header)
ruled rules none = none
ruled rules (some (code, h)) = some (code, apply rules h)

begun-ruled :
    (rules : HeaderRules) (rest : List Action) (w v : Writer) (code : ℕ) (h : Header)
    → w.sent ≡ some (code, apply rules h)
    → v.sent ≡ some (code, h)
    → w.body ≡ v.body
    → ((act_all w (respond rules true rest)).sent ≡ ruled rules (act_all v rest).sent)
      × ((act_all w (respond rules true rest)).body ≡ (act_all v rest).body)
begun-ruled rules rest w v code h s t e = (
  ap (λ r. (act_all w r).sent) (respond-written rules rest)
      ∙ act_all-sent rest w _ s
      ∙ sym (ap (ruled rules) (act_all-sent rest v _ t)),
  ap (λ r. (act_all w r).body) (respond-written rules rest) ∙ act_all-body rest w v e,
)

respond-started :
    (rules : HeaderRules) (actions : List Action) (w : Writer)
    → All IsFinal actions
    → w.sent ≡ none
    → let after = act_all w (respond rules false actions) in
      (after.sent ≡ ruled rules (act_all w actions).sent) × (after.body ≡ (act_all w actions).body)
unfolding respond act_all act
respond-started rules [] w f e = (rw (e) refl, refl)
respond-started rules (change g ∷ rest) w (f, fs) e =
    respond-started rules rest (act w (change g)) fs e
respond-started rules (write_header c ∷ rest) w (f, fs) e =
    begun-ruled rules rest _ _ c w.header (rw (f, e) refl) (rw (f, e) refl) (rw (f) refl)
respond-started rules (write b ∷ rest) w (f, fs) e =
    begun-ruled rules rest _ _ 200 w.header (rw (e) refl) (rw (e) refl) refl

some-none : {A B : Type 0} {a : A} {o : Option A} → o ≡ some a → o ≡ none → B
some-none p q = cc

-- What has started has sent something.
respond-unstarted :
    (rules : HeaderRules) (actions : List Action) (w : Writer)
    → All IsFinal actions
    → w.sent ≡ none
    → (act_all w actions).sent ≡ none
    → respond rules false actions ≡ actions
unfolding respond act_all act
respond-unstarted rules [] w f e n = refl
respond-unstarted rules (change g ∷ rest) w (f, fs) e n =
    ap (λ r. change g ∷ r) (respond-unstarted rules rest (act w (change g)) fs e n)
respond-unstarted rules (write_header c ∷ rest) w (f, fs) e n =
    some-none (act_all-sent rest (act w (write_header c)) (c, w.header) (rw (f, e) refl)) n
respond-unstarted rules (write b ∷ rest) w (f, fs) e n =
    some-none (act_all-sent rest (act w (write b)) (200, w.header) (rw (e) refl)) n

apply-no_work : (rules : HeaderRules) (h : Header) → no_work rules ≡ true → apply rules h ≡ h
unfolding apply set_rules add_rules del_all
apply-no_work rules h e = by_lists rules.set rules.add rules.remove e
  where
    by_lists :
        (xs ys : List (Str × Str)) (zs : List Str)
        → no_work (record { set = xs; add = ys; remove = zs }) ≡ true
        → apply (record { set = xs; add = ys; remove = zs }) h ≡ h
    by_lists [] [] [] e' = refl
    by_lists [] [] (z ∷ zs) e' = cc
    by_lists [] (y ∷ ys) zs e' = cc
    by_lists (x ∷ xs) ys zs e' = cc

ruled-no_work :
    (rules : HeaderRules) (o : Option (ℕ × Header)) → no_work rules ≡ true → o ≡ ruled rules o
ruled-no_work rules none e = refl
ruled-no_work rules (some (code, h)) e = ap (λ x. some (code, x)) (sym (apply-no_work rules h e))

module _ {S : Type 0} (on_request on_response : HeaderRules) (next : Handler S) (now : ℕ)
    (r : Request) (before : Info) (s : S) where
  -- The handler inside, with the request's own rules applied, and the whole.
  abbrev pub inner : Ran S
  inner = next now (record r { header = apply on_request r.header }) before s

  abbrev pub outer : Ran S
  outer = headers on_request on_response next now r before s

  -- What the rules of the response do to what a handler has done.
  pub record Ruled (w : Writer) (ran : Ran S) : Type 0 where
    pub sent : (act_all w ran.actions).sent ≡ ruled on_response (act_all w inner.actions).sent
    pub body : (act_all w ran.actions).body ≡ (act_all w inner.actions).body
    pub implicit :
        (act_all w inner.actions).sent ≡ none
        → on_the_wire (act_all w ran.actions) ≡ on_the_wire (act_all w inner.actions)
    pub outcome : ran.outcome ≡ inner.outcome
    pub info : ran.info ≡ inner.info
    pub state : ran.state ≡ inner.state

  by_work :
      (b : Bool) (w : Writer)
      → no_work on_response ≡ b
      → All IsFinal inner.actions
      → w.sent ≡ none
      → Ruled w
          (if b then inner else record inner { actions = respond on_response false inner.actions })
  by_work true w n f e = record {
    sent = ruled-no_work on_response _ n;
    body = refl;
    implicit = λ z. refl;
    outcome = refl;
    info = refl;
    state = refl;
  }
  by_work false w n f e =
      let (sent, body) = respond-started on_response inner.actions w f e in
      record {
        sent = sent;
        body = body;
        implicit = λ z.
            ap (λ a. on_the_wire (act_all w a))
              (respond-unstarted on_response inner.actions w f e z);
        outcome = refl;
        info = refl;
        state = refl;
      }

  -- If a handler starts its response itself, and sends no informational status, the client gets its
  -- status and body unchanged and its headers, as they were when the response started, with the rules
  -- applied to them exactly once. If the handler writes nothing, so that net/http sends status 200 for
  -- it, the rules are not applied at all.
  pub headers-Ruled : (w : Writer) → All IsFinal inner.actions → w.sent ≡ none → Ruled w outer
  unfolding headers
  headers-Ruled w f e = by_work (no_work on_response) w refl f e
