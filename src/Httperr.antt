-- ===== src/Httperr.antt =====
-- internal/httperr/httperr.go: the problem documents of the gateway. The JSON encoder and the table of
-- status texts are arguments.
pub mod Started
mod Scenarios
use nina.Prelude.{
  ℕ, Option, none, some, List, [], ◌∷◌, ◌++◌, nat_beq, if◌then◌else◌, Str, lit, str_eq, ◌==◌,
}
use nina.Http.{set_header, del}
use nina.Http.Writing.{Action, change, write_header, write, http_error}
use nina.Reqctx.{Info}

pub record FieldError : Type 0 where
  pub loc : Str
  pub name : Str
  pub pointer : Str
  pub message : Str

pub record Problem : Type 0 where
  pub kind : Str
  pub title : Str
  pub status : ℕ
  pub detail : Str
  pub instance_path : Str
  pub errors : List FieldError
  pub request_id : Str

-- json.Marshal, with `none` for an error, and http.StatusText.
pub record Rendering : Type 0 where
  pub marshal : Problem → Option Str
  pub status_text : ℕ → Str

abbrev pub problem : ℕ → Str → Str → Problem
problem status title detail = record {
  kind = [];
  title = title;
  status = status;
  detail = detail;
  instance_path = [];
  errors = [];
  request_id = [];
}

-- The status and the title where they are not given.
abbrev pub with_defaults : Rendering → Problem → Problem
with_defaults rend p =
    let status : ℕ = if nat_beq p.status 0 then 500 else p.status in
    record p { status = status; title = if p.title == [] then rend.status_text status else p.title }

abbrev pub with_info : Option Info → Problem → Problem
with_info none p = p
with_info (some info) p = record p { request_id = info.request_id; instance_path = info.template }

abbrev pub document : Rendering → ℕ → Option Str → List Action
document rend status none = http_error (rend.status_text status) status
document rend status (some body) =
    change (set_header (lit "Content-Type") (lit "application/problem+json"))
    ∷ change (del (lit "Content-Length"))
    ∷ write_header status
    ∷ write body
    ∷ []

-- Write: what is done to the response.
unfoldable pub write_problem : Rendering → Option Info → Problem → List Action
write_problem rend info p =
    let full = with_info info (with_defaults rend p) in
    document rend full.status (rend.marshal full)
