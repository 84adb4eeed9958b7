-- ===== src/Mw/Cors/Origins.antt =====
-- Which origins may read a response, and which may send credentials.
use nina.Prelude.{
  arith, ◌≡◌, refl, ◌∙◌, ap, Bool, true, false, ◌&&◌, Option, none, some, List, [], ◌∷◌, ◌++◌, Str,
  lit, str_eq, same_str, ◌==◌, if◌then◌else◌, Bool-cases, inl, inr, to_lower, map, join,
}
use nina.Http.{
  Header, get, set_header, add_header, canonical, title, get-set_header, get-set_header_other,
  get-add_header_other,
}
use nina.Http.Writing.{
  Writer, Action, change, write_header, act_all, act, act_all-append, header-sends,
}
use nina.RouteTable.Build.{Route}
use nina.Reqctx.{Request}
use nina.Mw.Cors.{
  Settings, Instance, Made, made, refused, new_cors, origin_headers, origin_headers_of, origin_part,
  filled, asked_headers, preflight, preflight_methods, when, has_wildcard,
  credentials_with_wildcard, with_max_age, ℤ,
}

with_max_age-made :
    (s : Settings) (all : Bool) (age : Option Str) (i : Instance)
    → with_max_age s all age ≡ made i
    → (i.set ≡ s) × (i.allow_all ≡ all) × (i.origins ≡ map to_lower s.allow_origins)
with_max_age-made s all none i e = cc
with_max_age-made s all (some age) i e = (ground (arith, e), ground (arith, e), ground (arith, e))

made-past :
    (b : Bool) (y : Made) {i : Instance}
    → b ≡ false
    → (if b then refused credentials_with_wildcard else y) ≡ made i
    → y ≡ made i
made-past true y b e = cc
made-past false y b e = e

-- What New makes of settings it accepts.
pub made-from :
    (parse_duration : Str → Option ℤ) (s : Settings) (i : Instance)
    → new_cors parse_duration s ≡ made i
    → (has_wildcard s.allow_origins && s.allow_credentials ≡ false)
      × (i.set ≡ s)
      × (i.allow_all ≡ has_wildcard s.allow_origins)
      × (i.origins ≡ map to_lower s.allow_origins)
unfolding new_cors
made-from parse_duration s i e =
    elim (Bool-cases (has_wildcard s.allow_origins && s.allow_credentials)) [
      | inl b ↦ ground (arith, e, b)
      | inr b ↦
          let (p, q, r) =
            with_max_age-made s (has_wildcard s.allow_origins) _ i (made-past _ _ b e) in
          (b, p, q, r)
    ]

abbrev pub acao : Str
acao = lit "Access-Control-Allow-Origin"

-- Headers of other names leave the origin as it is.
named-origin :
    (origin : Str) (h : Header)
    → get acao (add_header (lit "Vary") (lit "Origin") (set_header acao origin h)) ≡ origin
unfolding canonical title lit same_str
named-origin origin h =
    get-add_header_other (lit "Vary") acao (lit "Origin") (set_header acao origin h) refl
    ∙ get-set_header acao origin h

credentialed-origin :
    (origin : Str) (h : Header)
    → get acao (
        set_header
          (lit "Access-Control-Allow-Credentials")
          (lit "true")
          (add_header (lit "Vary") (lit "Origin") (set_header acao origin h)))
      ≡ origin
unfolding canonical title lit same_str
credentialed-origin origin h =
    get-set_header_other (lit "Access-Control-Allow-Credentials") acao (lit "true") _ refl
    ∙ named-origin origin h

exposed-origin :
    (b : Bool) (f : Str) (w : Writer)
    → get acao (act_all w (when b (set_header (lit "Access-Control-Expose-Headers") f))).header
      ≡ get acao w.header
unfolding act_all act canonical title lit same_str
exposed-origin false f w = refl
exposed-origin true f w =
    get-set_header_other (lit "Access-Control-Expose-Headers") acao f w.header refl

of_credentials-origin :
    (all : Bool) (exposed origin : Str) (w : Writer)
    → get acao (act_all w (origin_headers_of all true exposed origin)).header ≡ origin
unfolding act_all act
of_credentials-origin true exposed origin w =
    exposed-origin (filled exposed) exposed _ ∙ credentialed-origin origin w.header
of_credentials-origin false exposed origin w =
    exposed-origin (filled exposed) exposed _ ∙ credentialed-origin origin w.header

-- With credentials, the origin that is named is the request's.
pub credentials-origin :
    (i : Instance) (origin : Str) (w : Writer)
    → i.set.allow_credentials ≡ true
    → get acao (act_all w (origin_headers i origin)).header ≡ origin
credentials-origin i origin w c =
    ap (λ b. get acao (act_all w (origin_headers_of i.allow_all b i.expose_headers origin)).header)
      c
    ∙ of_credentials-origin i.allow_all i.expose_headers origin w

-- Actions that send nothing and leave the origin as it is.
abbrev Keeps : List Action → Type 0
Keeps actions =
    (w : Writer)
    → ((act_all w actions).sent ≡ w.sent)
      × (get acao (act_all w actions).header ≡ get acao w.header)

Keeps-append : (xs ys : List Action) → Keeps xs → Keeps ys → Keeps (xs ++ ys)
Keeps-append xs ys p q w =
    let (s, g) = p w in
    let (t, h) = q (act_all w xs) in
    let e = act_all-append xs ys w in
    (ap (λ v. v.sent) e ∙ t ∙ s, ap (λ v. get acao v.header) e ∙ h ∙ g)

Keeps-nothing : Keeps []
unfolding act_all
Keeps-nothing w = (refl, refl)

Keeps-set :
    (name v : Str)
    → canonical name == canonical acao ≡ false
    → Keeps (change (set_header name v) ∷ [])
unfolding act_all act
Keeps-set name v n w = (refl, get-set_header_other name acao v w.header n)

Keeps-add :
    (name v : Str)
    → canonical name == canonical acao ≡ false
    → Keeps (change (add_header name v) ∷ [])
unfolding act_all act
Keeps-add name v n w = (refl, get-add_header_other name acao v w.header n)

Keeps-when :
    (b : Bool) (name v : Str)
    → canonical name == canonical acao ≡ false
    → Keeps (when b (set_header name v))
Keeps-when false name v n = Keeps-nothing
Keeps-when true name v n = Keeps-set name v n

Keeps-if : (b : Bool) (xs ys : List Action) → Keeps xs → Keeps ys → Keeps (if b then xs else ys)
Keeps-if true xs ys p q = p
Keeps-if false xs ys p q = q

asked_headers-Keeps : (i : Instance) (req : Request) → Keeps (asked_headers i req)
unfolding canonical title lit same_str
asked_headers-Keeps i req =
    let rh = get (lit "Access-Control-Request-Headers") req.header in
    Keeps-if (filled i.allow_headers) _ _
      (Keeps-set (lit "Access-Control-Allow-Headers") i.allow_headers refl)
      (Keeps-if (filled rh) _ _
        (Keeps-append (change (set_header (lit "Access-Control-Allow-Headers") rh) ∷ []) _
          (Keeps-set (lit "Access-Control-Allow-Headers") rh refl)
          (Keeps-add (lit "Vary") (lit "Access-Control-Request-Headers") refl))
        Keeps-nothing)

part-sent :
    (all credentials exposed : Bool) (f g : Header → Header) (origin : Str) (w : Writer)
    → (act_all w (origin_part all credentials origin ++ when credentials f ++ when exposed g)).sent
      ≡ w.sent
unfolding act_all act
part-sent true true true f g origin w = refl
part-sent true true false f g origin w = refl
part-sent true false true f g origin w = refl
part-sent true false false f g origin w = refl
part-sent false true true f g origin w = refl
part-sent false true false f g origin w = refl
part-sent false false true f g origin w = refl
part-sent false false false f g origin w = refl

-- The origin's own headers send nothing.
pub origin_headers-sent :
    (i : Instance) (origin : Str) (w : Writer) → (act_all w (origin_headers i origin)).sent ≡ w.sent
origin_headers-sent i origin w =
    part-sent i.allow_all i.set.allow_credentials (filled i.expose_headers) _ _ origin w

pub preflight-sends :
    (i : Instance) (route : Route) (req : Request) (w : Writer)
    → w.sent ≡ none
    → (h : Header) × ((act_all w (preflight i route req)).sent ≡ some (204, h))
      × (get acao h ≡ get acao w.header)
unfolding canonical title lit same_str act_all act
preflight-sends i route req w e =
    let methods = join (lit ", ") (preflight_methods i route) in
    let allow = change (set_header (lit "Access-Control-Allow-Methods") methods) ∷ [] in
    let age = when (filled i.max_age) (set_header (lit "Access-Control-Max-Age") i.max_age) in
    let headers = allow ++ asked_headers i req ++ age in
    let keeps : Keeps headers =
      Keeps-append (allow ++ asked_headers i req) age
        (Keeps-append allow (asked_headers i req)
          (Keeps-set (lit "Access-Control-Allow-Methods") methods refl) (asked_headers-Keeps i req))
        (Keeps-when (filled i.max_age) (lit "Access-Control-Max-Age") i.max_age refl) in
    let (t, g) = keeps w in
    let w1 = act_all w headers in
    (
      w1.header,
      ap (λ v. v.sent) (act_all-append headers (write_header 204 ∷ []) w)
          ∙ header-sends 204 w1 refl (t ∙ e),
      g,
    )
