-- ===== src/Runtime/Terminal.antt =====
-- internal/runtime/build.go: proxyHandler, the last handler of every chain, with CopyResponse of
-- internal/proxy/proxy.go and writeUpstreamError of internal/runtime/server.go. The request's Info is
-- there, since ServeHTTP makes it.
pub mod Copied
pub mod Relayed
mod Scenarios
use nina.Prelude.{
  ℕ, Bool, Option, none, some, List, [], ◌∷◌, ◌++◌, map, nat_beq, if◌then◌else◌, Str, lit,
}
use nina.Http.{Header, add_header}
use nina.Http.Writing.{Action, change, write_header, write}
use nina.Router.{Param}
use nina.RouteTable.Build.{Route}
use nina.Reqctx.{Info}
use nina.Httperr.{Problem, problem, Rendering, write_problem}
use nina.Proxy.Headers.{Inbound, strip_hop_by_hop}
use nina.Proxy.Forward.{
  Kind, kind_breaker_open, kind_no_host, kind_timeout, kind_connect, kind_canceled, status_code,
  Backend, Body, Turn, Run, Reply, response, error, panicked, Report, forward,
}
use nina.Serving.{Ran, returned, panicked}
use nina.Runtime.Substitution.{substitute_params}

-- What there is of the upstream's response besides its status: its headers and the pieces in which
-- its body is read, up to its end or an error.
pub record Content : Type 0 where
  pub header : Header
  pub pieces : List Str

-- The loops of CopyResponse over a header's values and over the headers.
unfoldable pub add_values : Str → List Str → Header → Header
add_values name [] h = h
add_values name (v ∷ vs) h = add_values name vs (add_header name v h)

unfoldable pub add_each : Header → Header → Header
add_each [] h = h
add_each ((name, vs) ∷ rest) h = add_each rest (add_values name vs h)

-- CopyResponse: what it does to the writer.
unfoldable pub copy_response : ℕ → Content → List Action
copy_response code c =
    change (λ h. strip_hop_by_hop (add_each c.header h)) ∷ write_header code ∷ map write c.pieces

-- The titles of writeUpstreamError.
abbrev pub upstream_title : Kind → Str
upstream_title kind_breaker_open = lit "Upstream is unavailable"
upstream_title kind_no_host = lit "Upstream is unavailable"
upstream_title kind_timeout = lit "Upstream timed out"
upstream_title kind_connect = lit "Upstream could not be reached"
upstream_title kind_canceled = lit "Upstream error"

abbrev pub upstream_problem : ℕ → Kind → Problem
upstream_problem status k =
    problem status (upstream_title k)
      (lit "the gateway could not complete the request against the upstream service")

-- writeUpstreamError
abbrev pub write_upstream_error : Rendering → Info → ℕ → Kind → List Action
write_upstream_error rend info status k = write_problem rend (some info) (upstream_problem status k)

-- After an error of Do; nobody is left to answer if the client hung up.
unfoldable pub fail_upstream : Rendering → Info → Kind → List Action
fail_upstream rend info k =
    let status = status_code k in
    if nat_beq status 499 then [] else write_upstream_error rend info status k

abbrev pub path_for : Str → List Param → Str
path_for tmpl [] = tmpl
path_for tmpl (p ∷ ps) = substitute_params tmpl (p ∷ ps)

abbrev with_host : (ℕ → Str) → Option ℕ → Info → Info
with_host host_name none info = info
with_host host_name (some i) info = record info { upstream_host = host_name i }

-- The part of Info that Do's Result gives; Do made no attempt if it returned no Result.
abbrev pub with_result : (ℕ → Str) → Report → Info → Info
with_result host_name report info =
    if nat_beq report.attempts 0
    then info
    else with_host host_name report.host (record info { upstream_attempt = report.attempts })

abbrev pub answer_client : Rendering → (ℕ → Str) → Content → Info → Run → Report → Reply → Ran Run
answer_client rend host_name c info s report (response code) = record {
  actions = copy_response code c;
  outcome = returned;
  info = record (with_result host_name report info) { upstream_status = code };
  state = s;
}
answer_client rend host_name c info s report (error k) =
    let noted : Info = with_result host_name report info in
    record { actions = fail_upstream rend noted k; outcome = returned; info = noted; state = s }
answer_client rend host_name c info s report panicked = record {
  actions = [];
  outcome = panicked;
  info = info;
  state = s;
}

-- What Do is called with.
abbrev pub sent_upstream :
    Backend → Str → Inbound → Body → (ℕ → Turn) → List Param → Run → Run × Report
sent_upstream b tmpl req body env params s = forward b req body (path_for tmpl params) env s

-- proxyHandler, of a route whose UpstreamPath is `tmpl`.
unfoldable pub proxy_handler :
    Rendering
    → (ℕ → Str)
    → Backend
    → Str
    → Inbound
    → Body
    → (ℕ → Turn)
    → Content
    → Info
    → Run
    → Ran Run
proxy_handler rend host_name b tmpl req body env c info s =
    let (after, report) = sent_upstream b tmpl req body env info.params s in
    answer_client rend host_name c info after report report.reply
