-- ===== src/Runtime/Substitution/Segments.antt =====
-- The segments of a path in which parameters are substituted.
use nina.Prelude.{
  ℕ, ◌/◌, ◌%◌, ◌≡◌, ◌∙◌, inl, inr, refl, sym, ap, true, false, Option, none, some, List, [], ◌∷◌,
  ◌++◌, arith, nat_beq, nat_eq, Str, lit, onto_first, split, join, All, Bool-cases,
}
use nina.Router.{Param, get_param, param_name}
use nina.Runtime.Substitution.{
  escaped_or, segment_safe, hex_digit, escape, path_escape, fill, fill_all, root_if_empty,
  substitute_params, of_name,
}

-- No byte is a slash.
abbrev HasNoSlash : Str → Type 0
HasNoSlash s = All (λ c. nat_beq c b'/' ≡ false) s

split-HasNoSlash : (s : Str) → All HasNoSlash (split b'/' s)
unfolding split
split-HasNoSlash [] = (tt, tt)
split-HasNoSlash (c ∷ s) = elim (Bool-cases (nat_beq c b'/')) [
  | inl t ↦ rw t (tt, split-HasNoSlash s)
  | inr f ↦ rw f (onto (split b'/' s) (split-HasNoSlash s) f)
]
  where
    onto :
        (ps : List Str)
        → All HasNoSlash ps
        → nat_beq c b'/' ≡ false
        → All HasNoSlash (onto_first c ps)
    onto [] a f = ((f, tt), tt)
    onto (p ∷ ps) (q, a) f = ((f, q), a)

split-one : (s : Str) → HasNoSlash s → split b'/' s ≡ s ∷ []
unfolding split
split-one [] a = refl
split-one (c ∷ s) (f, a) = rw f (rw (split-one s a) refl)

split-append : (s t : Str) → HasNoSlash s → split b'/' (s ++ b'/' ∷ t) ≡ s ∷ split b'/' t
unfolding split
split-append [] t a = refl
split-append (c ∷ s) t (f, a) = rw f (rw (split-append s t a) refl)

append-one : (p : Str) (b : ℕ) (t : Str) → p ++ b ∷ [] ++ t ≡ p ++ b ∷ t
append-one [] b t = refl
append-one (c ∷ p) b t = ap (λ x. c ∷ x) (append-one p b t)

split-join :
    (p : Str) (ps : List Str)
    → All HasNoSlash (p ∷ ps)
    → split b'/' (join (lit "/") (p ∷ ps)) ≡ p ∷ ps
unfolding join lit
split-join p [] (a, rest) = split-one p a
split-join p (q ∷ ps) (a, rest) =
    ap (split b'/') (append-one p b'/' (join (lit "/") (q ∷ ps)))
    ∙ split-append p (join (lit "/") (q ∷ ps)) a
    ∙ ap (λ x. p ∷ x) (split-join q ps rest)

hex_digit-slash : (n : ℕ) → nat_beq (hex_digit n) b'/' ≡ false
hex_digit-slash n = ground arith

segment_safe-slash : (c : ℕ) → segment_safe c ≡ true → nat_beq c b'/' ≡ false
segment_safe-slash c h = ground arith

escape-HasNoSlash : (s : Str) → HasNoSlash (escape segment_safe s)
unfolding escape
escape-HasNoSlash [] = tt
escape-HasNoSlash (c ∷ s) = elim (Bool-cases (segment_safe c)) [
  | inl t ↦ rw t (segment_safe-slash c t, escape-HasNoSlash s)
  | inr f ↦ rw f (refl, (hex_digit-slash (c / 16), (hex_digit-slash (c % 16), escape-HasNoSlash s)))
]

fill-HasNoSlash : (params : List Param) (seg : Str) → HasNoSlash seg → HasNoSlash (fill params seg)
unfolding fill path_escape
fill-HasNoSlash params seg a = by_name (param_name seg)
  where
    by_value : (o : Option Str) → HasNoSlash (escaped_or seg o)
    by_value none = a
    by_value (some v) = escape-HasNoSlash v

    by_name : (o : Option Str) → HasNoSlash (of_name seg params o)
    by_name none = a
    by_name (some n) = by_value (get_param n params)

fill_all-HasNoSlash :
    (params : List Param) (segs : List Str)
    → All HasNoSlash segs
    → All HasNoSlash (fill_all params segs)
unfolding fill_all
fill_all-HasNoSlash params [] a = tt
fill_all-HasNoSlash params (seg ∷ segs) (a, rest) =
    (fill-HasNoSlash params seg a, fill_all-HasNoSlash params segs rest)

-- The substitution of parameters neither adds nor removes a segment, whatever the values hold: where
-- the path that it makes is not the root that stands for an empty one, its segments are the
-- template's, each with its own parameter filled in.
pub substitute_params-segments :
    (tmpl : Str) (params : List Param) {c : ℕ} {s : Str}
    → join (lit "/") (fill_all params (split b'/' tmpl)) ≡ c ∷ s
    → split b'/' (substitute_params tmpl params) ≡ fill_all params (split b'/' tmpl)
unfolding substitute_params join
substitute_params-segments tmpl params {c} {s} e =
    ap (λ x. split b'/' (root_if_empty x)) e
    ∙ ap (split b'/') (sym e)
    ∙ of_segments (fill_all params (split b'/' tmpl))
        (fill_all-HasNoSlash params (split b'/' tmpl) (split-HasNoSlash tmpl)) e
  where
    of_segments :
        (ps : List Str)
        → All HasNoSlash ps
        → join (lit "/") ps ≡ c ∷ s
        → split b'/' (join (lit "/") ps) ≡ ps
    of_segments [] a e' = cc
    of_segments (p ∷ ps) a e' = split-join p ps a
