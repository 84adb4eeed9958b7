-- ===== src/Mw/RateLimit/Keys.antt =====
-- The key of a request tells apart all that its components tell apart.
use nina.Prelude.{
  arith, ◌≡◌, refl, sym, ◌∙◌, ap, false, Option, List, [], ◌∷◌, ◌++◌, map, All, Str, contains,
  nat_eq, ◌⊎◌, inl, inr,
}
use nina.Reqctx.{Info, Request}
use nina.Mw.RateLimit.{Extractor, part_of, add_parts, build_key}

-- A component without the separator.
abbrev pub IsWhole : Str → Type 0
IsWhole p = contains p b'|' ≡ false

abbrev bar_texts : List Str → Str
bar_texts [] = []
bar_texts (p ∷ ps) = (b'|' ∷ p) ++ bar_texts ps

abbrev AtBar : Str → Type 0
AtBar s = (s ≡ []) ⊎ ((u : Str) × (s ≡ b'|' ∷ u))

bar_texts-AtBar : (ps : List Str) → AtBar (bar_texts ps)
bar_texts-AtBar [] = inl refl
bar_texts-AtBar (p ∷ ps) = inr (_, refl)

append-injective :
    (p q s t : Str)
    → IsWhole p
    → IsWhole q
    → AtBar s
    → AtBar t
    → p ++ s ≡ q ++ t
    → (p ≡ q) × (s ≡ t)
append-injective [] [] s t v w a b e = (refl, e)
append-injective [] (c ∷ q) s t v w (inl a) b e = cc
append-injective [] (c ∷ q) s t v w (inr (u, a)) b e = let h : c ≡ b'|' = cc in ground (arith, h, w)
append-injective (c ∷ p) [] s t v w a (inl b) e = cc
append-injective (c ∷ p) [] s t v w a (inr (u, b)) e = let h : c ≡ b'|' = cc in ground (arith, h, v)
append-injective (c ∷ p) (d ∷ q) s t v w a b e =
    let (f, g) = append-injective p q s t (ground (arith, v)) (ground (arith, w)) a b cc in
    let h : c ≡ d = cc in (cc, g)

bar_texts-injective :
    (ps qs : List Str) → All IsWhole ps → All IsWhole qs → bar_texts ps ≡ bar_texts qs → ps ≡ qs
bar_texts-injective [] [] v w e = refl
bar_texts-injective [] (q ∷ qs) v w e = cc
bar_texts-injective (p ∷ ps) [] v w e = cc
bar_texts-injective (p ∷ ps) (q ∷ qs) (v, vs) (w, ws) e =
    let (f, g) =
      append-injective p q (bar_texts ps) (bar_texts qs) v w (bar_texts-AtBar ps)
        (bar_texts-AtBar qs) cc in
    let h = bar_texts-injective ps qs vs ws g in cc

add_parts-texts :
    (r : Request) (info : Option Info) (fns : List Extractor)
    → add_parts r info fns ≡ bar_texts (map (part_of r info) fns)
unfolding add_parts
add_parts-texts r info [] = refl
add_parts-texts r info (e ∷ es) =
    ap (λ s. (b'|' ∷ part_of r info e) ++ s) (add_parts-texts r info es)

append_left_injective : (p s t : Str) → p ++ s ≡ p ++ t → s ≡ t
append_left_injective [] s t e = e
append_left_injective (c ∷ p) s t e = append_left_injective p s t cc

-- Two requests of which no component holds the separator `|` are metered under one key only if they
-- agree in every component of the key expression.
pub build_key-injective :
    (name : Str) (fns : List Extractor) (r r' : Request) (info info' : Option Info)
    → All IsWhole (map (part_of r info) fns)
    → All IsWhole (map (part_of r' info') fns)
    → build_key name fns r info ≡ build_key name fns r' info'
    → map (part_of r info) fns ≡ map (part_of r' info') fns
unfolding build_key
build_key-injective name fns r r' info info' v w e = bar_texts-injective _ _ v w (
    sym (add_parts-texts r info fns)
    ∙ append_left_injective name _ _ e
    ∙ add_parts-texts r' info' fns)
