-- ===== src/Mw/ApiKey/Passing.antt =====
-- The request that the middleware hands on, and the scopes that it asks for.
use nina.Prelude.{
  arith, ◌≡◌, refl, ◌∙◌, ap, subst, Bool, true, false, Option, none, some, List, [], ◌∷◌, Str,
  str_eq, ◌==◌, Bool-cases, inl, inr, same_str_iff, same_str_refl, ◌≢◌, contains, lit,
}
use nina.Prelude.Map.{lookup, lookup-remove}
use nina.Http.{get, canonical, del, get-del, get-del_other, get-set_header, get-set_header_other}
use nina.Reqctx.{Request}
use nina.Mw.ApiKey.{Settings, Instance, missing_scopes, strips, forwarded, stripped}

-- The request that goes on for a consumer, as the settings have it: unless they ask to keep it, the
-- key is taken out, from the header or from the query, and else it stays; the consumer is named in the
-- header that they give; and other headers stay.
pub record Passes (set : Settings) (consumer : Str) (r r' : Request) : Type 0 where
  pub no_header :
      set.strip_credential ≢ some false
      → set.loc ≡ lit "header"
      → canonical set.forward_consumer_header == canonical set.name ≡ false
      → get set.name r'.header ≡ []
  pub no_query :
      set.strip_credential ≢ some false
      → set.loc == lit "header" ≡ false
      → lookup set.name r'.query ≡ none
  pub kept :
      set.strip_credential ≡ some false
      → (canonical set.forward_consumer_header == canonical set.name ≡ false
          → get set.name r'.header ≡ get set.name r.header)
        × (r'.query ≡ r.query)
  pub named :
      set.forward_consumer_header == [] ≡ false
      → get set.forward_consumer_header r'.header ≡ consumer
  pub others :
      (key : Str)
      → canonical set.name == canonical key ≡ false
      → canonical set.forward_consumer_header == canonical key ≡ false
      → get key r'.header ≡ get key r.header

-- Every scope that is asked for is there.
abbrev pub Covers : List Str → List Str → Type 0
Covers have want = (x : Str) → contains want x ≡ true → contains have x ≡ true

pub missing_scopes-none : (have want : List Str) → missing_scopes have want ≡ [] → Covers have want
unfolding missing_scopes
missing_scopes-none have [] e x c = cc
missing_scopes-none have (w ∷ ws) e x c = elim (Bool-cases (contains have w)) [
  | inr f ↦ ground (arith, e, f)
  | inl t ↦
      let rest : missing_scopes have ws ≡ [] = ground (arith, e, t) in
      elim (Bool-cases (w == x)) [
        | inl same ↦ subst (λ y. contains have y ≡ true) ((same_str_iff w x).0 same) t
        | inr other ↦ missing_scopes-none have ws rest x (ground (arith, c, other))
      ]
]

strips-unless : (o : Option Bool) → o ≢ some false → strips o ≡ true
strips-unless none n = refl
strips-unless (some true) n = refl
strips-unless (some false) n = elim (n refl) [ ]

pub forwarded-Passes :
    (i : Instance) (consumer : Str) (r : Request)
    → i.strip ≡ strips i.set.strip_credential
    → Passes i.set consumer r (forwarded i consumer r)
forwarded-Passes i consumer r s =
    let name = i.set.name in
    let to = i.set.forward_consumer_header in
    let left = (stripped i r).header in
    record {
      no_header = λ n l d. ground (
        arith,
        s ∙ strips-unless i.set.strip_credential n,
        l,
        get-del name r.header,
        get-set_header_other to name consumer (del name r.header) d,
        same_str_refl (lit "header"),
      );
      no_query = λ n l. ground (
        arith,
        s ∙ strips-unless i.set.strip_credential n,
        l,
        lookup-remove name name r.query,
        same_str_refl name,
      );
      kept = λ n.
          let off : i.strip ≡ false = s ∙ ap strips n in
          (
            (λ d. ground (arith, off, get-set_header_other to name consumer r.header d)),
            ground (arith, off),
          );
      named = λ n. ground (arith, n, get-set_header to consumer left);
      others = λ key d e.
          ground
            (arith, get-set_header_other to key consumer left e, get-del_other name key r.header d);
    }
