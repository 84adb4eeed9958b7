-- ===== src/Http/Writing.antt =====
-- What the gateway uses of Go's http.ResponseWriter, and http.Error. A handler's calls of its writer are
-- a list of actions, so that a middleware's own writer is a function on such lists.
use nina.Http.{Header, set_header, del}
use nina.Prelude.{
  ℕ, arith, ◌≡◌, refl, Bool, false, not, Bool-cases, inl, inr, ◌&&◌, Option, none, some, List, [],
  ◌∷◌, ◌++◌, Str, lit, leb, nat_beq, if◌then◌else◌,
}

-- A response: the header map that handlers change, the status with the headers that went out with it,
-- and the body so far.
pub record Writer : Type 0 where
  pub header : Header
  pub sent : Option (ℕ × Header)
  pub body : Str

pub data Action : Type 0 where
  change : (Header → Header) → Action
  write_header : ℕ → Action
  write : Str → Action

abbrev sent_or : Option (ℕ × Header) → ℕ × Header → ℕ × Header
sent_or none new = new
sent_or (some old) new = old

-- A status from 100 to 199 but 101 announces the response: it goes out by itself and leaves the
-- response open.
abbrev pub is_informational : ℕ → Bool
is_informational code = leb 100 code && leb code 199 && not (nat_beq code 101)

-- The status line is sent once, with the headers of that moment; a body sends status 200 before it. A
-- status has three digits, as net/http demands.
unfoldable pub act : Writer → Action → Writer
act w (change f) = record w { header = f w.header }
act w (write_header code) =
    if is_informational code then w else record w { sent = some (sent_or w.sent (code, w.header)) }
act w (write bytes) = record {
  header = w.header;
  sent = some (sent_or w.sent (200, w.header));
  body = w.body ++ bytes;
}

unfoldable pub act_all : Writer → List Action → Writer
act_all w [] = w
act_all w (a ∷ rest) = act_all (act w a) rest

-- The writer of a request that is new.
abbrev pub fresh_writer : Writer
fresh_writer = record { header = []; sent = none; body = [] }

-- What the client gets when the handler has returned: net/http sends status 200 for a handler that
-- wrote nothing.
unfoldable pub on_the_wire : Writer → ℕ × Header
on_the_wire w = sent_or w.sent (200, w.header)

-- http.Error
unfoldable pub http_error : Str → ℕ → List Action
http_error text code =
    change (del (lit "Content-Length"))
    ∷ change (set_header (lit "Content-Type") (lit "text/plain; charset=utf-8"))
    ∷ change (set_header (lit "X-Content-Type-Options") (lit "nosniff"))
    ∷ write_header code
    ∷ write (text ++ b'\n' ∷ [])
    ∷ []

pub act_all-append :
    (rest bs : List Action) (w : Writer) → act_all w (rest ++ bs) ≡ act_all (act_all w rest) bs
unfolding act_all
act_all-append [] bs w = refl
act_all-append (a ∷ rest) bs w = act_all-append rest bs (act w a)

pub header-body : (code : ℕ) (w : Writer) → (act w (write_header code)).body ≡ w.body
unfolding act
header-body code w = elim (Bool-cases (is_informational code)) [
  | inl t ↦ rw (t) refl
  | inr f ↦ rw (f) refl
]

pub header-sends :
    (code : ℕ) (w : Writer)
    → is_informational code ≡ false
    → w.sent ≡ none
    → (act w (write_header code)).sent ≡ some (code, w.header)
unfolding act
header-sends code w i e = rw (i, e) refl

-- An action that announces nothing.
abbrev pub IsFinal : Action → Type 0
IsFinal (change f) = Unit
IsFinal (write_header code) = is_informational code ≡ false
IsFinal (write b) = Unit

-- What has been sent stays sent.
pub act_all-sent :
    (rest : List Action) (w : Writer) (h : ℕ × Header)
    → w.sent ≡ some h
    → (act_all w rest).sent ≡ some h
unfolding act_all act
act_all-sent [] w h e = e
act_all-sent (change f ∷ rest) w h e = act_all-sent rest _ h e
act_all-sent (write_header code ∷ rest) w h e = act_all-sent rest _ h (ground arith)
act_all-sent (write b ∷ rest) w h e = act_all-sent rest _ h (ground arith)

pub on_the_wire-sent : (w : Writer) (h : ℕ × Header) → w.sent ≡ some h → on_the_wire w ≡ h
unfolding on_the_wire
on_the_wire-sent w h e = ground (arith, e)
