-- ===== src/Httperr/Started.antt =====
-- The problem document on a response that has started, and on one that has not.
use nina.Prelude.{
  ℕ, arith, ◌≡◌, refl, ap, ◌∙◌, Bool, true, false, not, ◌&&◌, All, Option, none, some, [], ◌∷◌,
  ◌++◌, Str, nat_beq,
}
use nina.Http.{Header}
use nina.Http.Writing.{
  Writer, act_all, act_all-sent, header-body, act, http_error, write_header, write,
  is_informational, IsFinal,
}
use nina.Reqctx.{Info}
use nina.Httperr.{Problem, Rendering, with_defaults, with_info, document, write_problem}

-- On a response that has started, Write is not without effect: its status is dropped, but its body
-- is sent behind what has been sent.
pub write_problem-started :
    (rend : Rendering) (info : Option Info) (p : Problem) (w : Writer) (status : ℕ) (sent : Header)
    (body : Str)
    → w.sent ≡ some (status, sent)
    → rend.marshal (with_info info (with_defaults rend p)) ≡ some body
    → let after = act_all w (write_problem rend info p) in
      (after.sent ≡ some (status, sent)) × (after.body ≡ w.body ++ body)
unfolding write_problem act_all act
write_problem-started rend info p w status sent body e m = (
  act_all-sent (write_problem rend info p) w (status, sent) e,
  rw (m) (ap (λ s. s ++ body) (header-body (with_info info (with_defaults rend p)).status _)),
)

-- A status that a response can have.
abbrev pub is_answer : ℕ → Bool
is_answer code = not (nat_beq code 0) && not (is_informational code)

begin-sends :
    (status : ℕ) (body : Str) (w : Writer)
    → is_informational status ≡ false
    → w.sent ≡ none
    → (act_all w (write_header status ∷ write body ∷ [])).sent ≡ some (status, w.header)
unfolding act_all act
begin-sends status body w i s = rw (i, s) refl

document-sends :
    (rend : Rendering) (status : ℕ) (body : Option Str) (w : Writer)
    → is_informational status ≡ false
    → w.sent ≡ none
    → (h : Header) × ((act_all w (document rend status body)).sent ≡ some (status, h))
unfolding act_all act http_error
document-sends rend status none w i s =
    (_, begin-sends status (rend.status_text status ++ b'\n' ∷ []) (record w { header = _ }) i s)
document-sends rend status (some body) w i s =
    (_, begin-sends status body (record w { header = _ }) i s)

full-status :
    (rend : Rendering) (info : Option Info) (p : Problem)
    → nat_beq p.status 0 ≡ false
    → (with_info info (with_defaults rend p)).status ≡ p.status
full-status rend none p n = rw (n) refl
full-status rend (some info) p n = rw (n) refl

-- On a response that has not started, Write sends its status, whatever the encoder makes of it.
pub write_problem-sends :
    (rend : Rendering) (info : Option Info) (p : Problem) (w : Writer)
    → w.sent ≡ none
    → is_answer p.status ≡ true
    → (h : Header) × ((act_all w (write_problem rend info p)).sent ≡ some (p.status, h))
unfolding write_problem
write_problem-sends rend info p w s n =
    let full : Problem = with_info info (with_defaults rend p) in
    let same = full-status rend info p (ground (arith, n)) in
    let final : is_informational p.status ≡ false = ground (arith, n) in
    let (h, e) =
      document-sends rend full.status (rend.marshal full) w (ap is_informational same ∙ final) s in
    (h, e ∙ ap (λ c. some (c, h)) same)

document-IsFinal :
    (rend : Rendering) (status : ℕ) (body : Option Str)
    → is_informational status ≡ false
    → All IsFinal (document rend status body)
unfolding http_error
document-IsFinal rend status none i = (tt, (tt, (tt, (i, (tt, tt)))))
document-IsFinal rend status (some body) i = (tt, (tt, (i, (tt, tt))))

-- A problem document announces nothing.
pub write_problem-IsFinal :
    (rend : Rendering) (info : Option Info) (p : Problem)
    → is_answer p.status ≡ true
    → All IsFinal (write_problem rend info p)
unfolding write_problem
write_problem-IsFinal rend info p n =
    let full : Problem = with_info info (with_defaults rend p) in
    let same = full-status rend info p (ground (arith, n)) in
    let final : is_informational p.status ≡ false = ground (arith, n) in
    document-IsFinal rend full.status (rend.marshal full) (ap is_informational same ∙ final)
