-- ===== src/Runtime/Terminal/Copied.antt =====
-- The headers that CopyResponse leaves.
use nina.Prelude.{
  ◌≡◌, refl, sym, ◌∙◌, ap, List, [], ◌∷◌, ◌++◌, if◌then◌else◌, Str, str_eq, ◌==◌, Bool-cases, inl,
  inr, same_str_iff,
}
use mathlib.Core.List.{append_assoc, append-nil}
use nina.Prelude.Map.{lookup, lookup-insert}
use nina.Http.{Header, canonical, values, add_header, some_values}
use nina.Proxy.Headers.{strip_hop_by_hop}
use nina.Proxy.Headers.Stripped.{is_hop, strip_hop_by_hop_lem}
use nina.Runtime.Terminal.{add_values, add_each}

-- The values that a header map has under any spelling of a name.
unfoldable pub gathered : Str → Header → List Str
gathered name [] = []
gathered name ((own, vs) ∷ rest) =
    let below = gathered name rest in if canonical own == canonical name then vs ++ below else below

values-add_header :
    (own v name : Str) (h : Header)
    → values name (add_header own v h)
      ≡ (if canonical own == canonical name then values name h ++ v ∷ [] else values name h)
unfolding values add_header
values-add_header own v name h = elim (Bool-cases (canonical own == canonical name)) [
  | inl e ↦
      ap some_values (lookup-insert (canonical own) (canonical name) (values own h ++ v ∷ []) h)
      ∙ rw (e) (
          ap (λ k. some_values (lookup k h) ++ v ∷ [])
            ((same_str_iff (canonical own) (canonical name)).0 e))
  | inr e ↦
      ap some_values (lookup-insert (canonical own) (canonical name) (values own h ++ v ∷ []) h)
      ∙ rw (e) refl
]

values-add_values :
    (own : Str) (vs : List Str) (name : Str) (h : Header)
    → values name (add_values own vs h)
      ≡ (if canonical own == canonical name then values name h ++ vs else values name h)
unfolding add_values
values-add_values own [] name h = elim (Bool-cases (canonical own == canonical name)) [
  | inl e ↦ rw (e) (sym (append-nil (values name h)))
  | inr e ↦ rw (e) refl
]
values-add_values own (v ∷ vs) name h = elim (Bool-cases (canonical own == canonical name)) [
  | inl e ↦
      values-add_values own vs name (add_header own v h)
      ∙ rw (e) (
          ap (λ x. x ++ vs) (values-add_header own v name h ∙ rw (e) refl)
          ∙ append_assoc (values name h) (v ∷ []) vs)
  | inr e ↦
      values-add_values own vs name (add_header own v h)
      ∙ rw (e) (values-add_header own v name h ∙ rw (e) refl)
]

pub values-add_each :
    (name : Str) (copied h : Header)
    → values name (add_each copied h) ≡ values name h ++ gathered name copied
unfolding add_each gathered
values-add_each name [] h = sym (append-nil (values name h))
values-add_each name ((own, vs) ∷ rest) h = elim (Bool-cases (canonical own == canonical name)) [
  | inl e ↦
      values-add_each name rest (add_values own vs h)
      ∙ rw (e) (
          ap (λ x. x ++ gathered name rest) (values-add_values own vs name h ∙ rw (e) refl)
          ∙ append_assoc (values name h) vs (gathered name rest))
  | inr e ↦
      values-add_each name rest (add_values own vs h)
      ∙ rw (e) (ap (λ x. x ++ gathered name rest) (values-add_values own vs name h ∙ rw (e) refl))
]

-- A header of the response has the values that the gateway's own part of the response had, followed by
-- the upstream's, in order; but it is gone if it concerns one connection only, or if a Connection header
-- of either names it.
pub copied-headers :
    (name : Str) (copied h : Header)
    → values name (strip_hop_by_hop (add_each copied h)) ≡ (
        if is_hop (add_each copied h) (canonical name)
        then []
        else values name h ++ gathered name copied)
unfolding values
copied-headers name copied h =
    ap some_values (strip_hop_by_hop_lem (add_each copied h) (canonical name))
    ∙ elim (Bool-cases (is_hop (add_each copied h) (canonical name))) [
      | inl e ↦ rw (e) refl
      | inr e ↦ rw (e) (values-add_each name copied h)
    ]
