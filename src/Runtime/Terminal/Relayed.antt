-- ===== src/Runtime/Terminal/Relayed.antt =====
-- What the client and the log get of what the upstream answers.
use nina.Prelude.{
  true, ℕ, ◌≡◌, refl, sym, ◌∙◌, ap, false, Option, none, some, List, [], ◌∷◌, ◌++◌, map, Str,
  if◌then◌else◌,
}
use mathlib.Core.List.{append_assoc, append-nil}
use nina.Http.{Header, values, canonical}
use nina.Proxy.Headers.Stripped.{is_hop}
use nina.Runtime.Terminal.Copied.{gathered, copied-headers}
use nina.Http.Writing.{
  Action, Writer, write, act, act_all, act_all-sent, header-body, header-sends, is_informational,
  change, write_header, on_the_wire, on_the_wire-sent,
}
use nina.Reqctx.{Info}
use nina.Httperr.{Problem, Rendering, write_problem}
use nina.Httperr.Started.{is_answer, write_problem-sends, write_problem-IsFinal}
use nina.Proxy.Headers.{Inbound, strip_hop_by_hop}
use nina.Proxy.Forward.{
  Kind, kind_breaker_open, kind_no_host, kind_timeout, kind_connect, kind_canceled, status_code,
  Backend, Body, Turn, Run, response, error, Report,
}
use nina.Serving.{Ran, new_recorder, record_all}
use nina.Serving.Recording.{record_all-tells}
use nina.Runtime.Terminal.{
  Content, add_each, copy_response, fail_upstream, write_upstream_error, upstream_problem,
  sent_upstream, proxy_handler,
}

abbrev pub concat : List Str → Str
concat [] = []
concat (s ∷ rest) = s ++ concat rest

-- What the client is to be told of an error, if anything.
abbrev pub client_status : Kind → Option ℕ
client_status kind_breaker_open = some 503
client_status kind_no_host = some 503
client_status kind_timeout = some 504
client_status kind_connect = some 502
client_status kind_canceled = none

-- What has become of a response, and of the recorder's status, after an error with a status to tell
-- the client, or with none.
abbrev pub Told : Option ℕ → Writer → List Action → Type 0
Told none w actions = (actions ≡ []) × ((record_all (new_recorder w) actions).status ≡ 200)
Told (some code) w actions =
    (h : Header) × ((act_all w actions).sent ≡ some (code, h))
    × ((record_all (new_recorder w) actions).status ≡ code)

act_all-pieces :
    (pieces : List Str) (w : Writer) → (act_all w (map write pieces)).body ≡ w.body ++ concat pieces
unfolding act_all act
act_all-pieces [] w = sym (append-nil w.body)
act_all-pieces (s ∷ rest) w =
    act_all-pieces rest (act w (write s)) ∙ append_assoc w.body s (concat rest)

status_of_problem :
    (rend : Rendering) (info : Option Info) (p : Problem) (w : Writer)
    → w.sent ≡ none
    → w.body ≡ []
    → is_answer p.status ≡ true
    → (record_all (new_recorder w) (write_problem rend info p)).status ≡ p.status
unfolding on_the_wire
status_of_problem rend info p w n m z =
    let (same, status, _, _) =
      record_all-tells w (write_problem rend info p) (write_problem-IsFinal rend info p z) n m in
    let (h, sent) = write_problem-sends rend info p w n z in
    status
    ∙ ap (λ x. (on_the_wire x).0) same
    ∙ ap (λ x. x.0) (on_the_wire-sent (act_all w (write_problem rend info p)) (p.status, h) sent)

copy_response-sends :
    (code : ℕ) (c : Content) (w : Writer)
    → is_informational code ≡ false
    → w.sent ≡ none
    → (act_all w (copy_response code c)).sent
      ≡ some (code, strip_hop_by_hop (add_each c.header w.header))
unfolding copy_response act_all act
copy_response-sends code c w i n =
    let w1 = act w (change (λ h. strip_hop_by_hop (add_each c.header h))) in
    act_all-sent (map write c.pieces) (act w1 (write_header code)) (code, w1.header)
      (header-sends code w1 i n)

copy_response-body :
    (code : ℕ) (c : Content) (w : Writer)
    → (act_all w (copy_response code c)).body ≡ w.body ++ concat c.pieces
unfolding copy_response act_all act
copy_response-body code c w =
    act_all-pieces c.pieces _ ∙ ap (λ s. s ++ concat c.pieces) (header-body code _)

module _ (rend : Rendering) (host_name : ℕ → Str) (b : Backend) (tmpl : Str) (req : Inbound)
    (body : Body) (env : ℕ → Turn) (c : Content) (info : Info) (s : Run) where
  abbrev pub upstream_report : Report
  upstream_report = (sent_upstream b tmpl req body env info.params s).1

  abbrev pub ran : Ran Run
  ran = proxy_handler rend host_name b tmpl req body env c info s

  -- The response that the proxy returns is the client's, where its status is not an informational one,
  -- which the transport keeps to itself. On a response that has not started its status is sent, and
  -- the headers have the values that they had so far, then the upstream's in order, less those that
  -- concern one connection only or that a Connection header of either names; its body follows; and the
  -- Info that is logged has its status.
  pub proxy_handler-relays :
      (code : ℕ) (w : Writer)
      → upstream_report.reply ≡ response code
      → is_informational code ≡ false
      → w.sent ≡ none
      → (h : Header) × ((act_all w ran.actions).sent ≡ some (code, h))
        × ((name : Str)
            → values name h ≡ (
                if is_hop (add_each c.header w.header) (canonical name)
                then []
                else values name w.header ++ gathered name c.header))
        × ((act_all w ran.actions).body ≡ w.body ++ concat c.pieces)
        × (ran.info.upstream_status ≡ code)
  unfolding proxy_handler
  proxy_handler-relays code w e i n = rw (e) (
    strip_hop_by_hop (add_each c.header w.header),
    copy_response-sends code c w i n,
    (λ name. copied-headers name c.header w.header),
    copy_response-body code c w,
    refl,
  )

  answered-Told :
      (noted : Info) (k : Kind) (code : ℕ) (w : Writer)
      → is_answer code ≡ true
      → w.sent ≡ none
      → w.body ≡ []
      → Told (some code) w (write_upstream_error rend noted code k)
  answered-Told noted k code w a n m =
      let (h, sent) = write_problem-sends rend (some noted) (upstream_problem code k) w n a in
      (h, sent, status_of_problem rend (some noted) (upstream_problem code k) w n m a)

  failed-Told :
      (noted : Info) (k : Kind) (w : Writer)
      → w.sent ≡ none
      → w.body ≡ []
      → Told (client_status k) w (fail_upstream rend noted k)
  unfolding fail_upstream status_code record_all
  failed-Told noted kind_canceled w n m = (refl, refl)
  failed-Told noted kind_breaker_open w n m = answered-Told noted kind_breaker_open 503 w refl n m
  failed-Told noted kind_no_host w n m = answered-Told noted kind_no_host 503 w refl n m
  failed-Told noted kind_timeout w n m = answered-Told noted kind_timeout 504 w refl n m
  failed-Told noted kind_connect w n m = answered-Told noted kind_connect 502 w refl n m

  -- On a response that has not started, an error of the proxy is told the client by its status: 503 if
  -- the breaker is open or no host is healthy, 504 if the upstream is late, 502 if it cannot be
  -- reached, and the access log and the metrics have that status too. If the client hung up, the
  -- handler does nothing to the response, and the log and the metrics have status 200.
  pub proxy_handler-fails :
      (k : Kind) (w : Writer)
      → upstream_report.reply ≡ error k
      → w.sent ≡ none
      → w.body ≡ []
      → Told (client_status k) w ran.actions
  unfolding proxy_handler
  proxy_handler-fails k w e n m = rw (e) (failed-Told _ k w n m)
