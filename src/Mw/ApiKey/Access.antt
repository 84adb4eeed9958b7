-- ===== src/Mw/ApiKey/Access.antt =====
-- Who gets past the API key middleware.
use nina.Prelude.{
  ℕ, arith, ◌≡◌, refl, sym, ap, subst, Bool, true, false, Option, none, some, List, [], ◌∷◌, In,
  here, there, Str, str_eq, ◌==◌, Bool-cases, Option-cases, inl, inr, ◌⊎◌, same_str_iff,
  same_str_refl, if◌then◌else◌,
}
use nina.Prelude.Map.{Map, lookup, insert, lookup-insert}
use nina.Http.{Header}
use nina.Http.Writing.{Writer, act_all}
use nina.Reqctx.{Info, Request}
use nina.Httperr.{Rendering}
use nina.Httperr.Started.{is_answer, write_problem-sends}
use nina.Serving.{returned, Ran, Handler}
use nina.Mw.ApiKey.{
  Settings, Instance, NewError, Made, made, refused, keys_file, index_keys, merge_keys, new_api_key,
  missing_scopes, strips, presented, scopes_of, forwarded, serve_consumer, check_scopes, reject,
  with_index, none_or, api_key,
}
use nina.Mw.ApiKey.Passing.{Passes, Covers, missing_scopes-none, forwarded-Passes}

module _ (hash : Str → Str) where
  -- A consumer with the key of a hash.
  pub record Holds (keys : Map Str Str) (h consumer : Str) : Type 0 where
    pub key : Str
    pub configured : In (consumer, key) keys
    pub hashed : hash key ≡ h

  abbrev later :
      {keys : Map Str Str} {h c : Str} {kv : Str × Str} → Holds keys h c → Holds (kv ∷ keys) h c
  later x = record { key = x.key; configured = there x.configured; hashed = x.hashed }

  index_keys-step :
      (c k : Str) (rest acc m : Map Str Str)
      → index_keys hash ((c, k) ∷ rest) acc ≡ made m
      → (k == [] ≡ false)
        × (lookup (hash k) acc ≡ none)
        × (index_keys hash rest (insert (hash k) c acc) ≡ made m)
  unfolding index_keys
  index_keys-step c k rest acc m e = elim (Bool-cases (k == [])) [
    | inl z ↦ ground (arith, e, z)
    | inr z ↦ elim (Option-cases (lookup (hash k) acc)) [
      | inl n ↦ (z, n, ground (arith, e, z, n))
      | inr (p, n) ↦ ground (arith, e, z, n)
    ]
  ]

  index_keys_sound :
      (keys acc m : Map Str Str) (h c : Str)
      → index_keys hash keys acc ≡ made m
      → lookup h m ≡ some c
      → (lookup h acc ≡ some c) ⊎ Holds keys h c
  unfolding index_keys
  index_keys_sound [] acc m h c e l = inl (ground (arith, e, l))
  index_keys_sound ((c0, k) ∷ rest) acc m h c e l =
      let (z, n, f) = index_keys-step c0 k rest acc m e in
      elim (index_keys_sound rest (insert (hash k) c0 acc) m h c f l) [
        | inr x ↦ inr (later x)
        | inl q ↦ elim (Bool-cases (hash k == h)) [
          | inl same ↦ inr (record {
            key = k;
            configured =
                let t : c0 ≡ c = ground (arith, q, lookup-insert (hash k) h c0 acc, same) in
                here (ap (λ x. (x, k)) (sym t));
            hashed = (same_str_iff (hash k) h).0 same;
          })
          | inr other ↦ inl (ground (arith, q, lookup-insert (hash k) h c0 acc, other))
        ]
      ]

  index_keys_keeps :
      (keys acc m : Map Str Str) (h c : Str)
      → index_keys hash keys acc ≡ made m
      → lookup h acc ≡ some c
      → lookup h m ≡ some c
  unfolding index_keys
  index_keys_keeps [] acc m h c e l = ground (arith, e, l)
  index_keys_keeps ((c0, k) ∷ rest) acc m h c e l =
      let (z, n, f) = index_keys-step c0 k rest acc m e in
      index_keys_keeps rest (insert (hash k) c0 acc) m h c f (elim (Bool-cases (hash k == h)) [
        | inl same ↦
            let q : hash k ≡ h = (same_str_iff (hash k) h).0 same in
            let r : lookup h acc ≡ none = subst (λ x. lookup x acc ≡ none) q n in
            ground (arith, r, l)
        | inr other ↦ ground (arith, l, lookup-insert (hash k) h c0 acc, other)
      ])

  -- Every configured consumer is found by its own key.
  pub index_keys_complete :
      (keys acc m : Map Str Str) (c k : Str)
      → index_keys hash keys acc ≡ made m
      → In (c, k) keys
      → lookup (hash k) m ≡ some c
  index_keys_complete [] acc m c k e i = elim i [ ]
  index_keys_complete ((c0, k0) ∷ rest) acc m c k e (here p) =
      let (z, n, f) = index_keys-step c0 k0 rest acc m e in
      let stored : lookup (hash k0) (insert (hash k0) c0 acc) ≡ some c0 =
        ground (arith, lookup-insert (hash k0) (hash k0) c0 acc, same_str_refl (hash k0)) in
      index_keys_keeps rest _ m (hash k) c f (
        subst (λ (kv : Str × Str). lookup (hash kv.1) (insert (hash k0) c0 acc) ≡ some kv.0) (sym p)
          stored)
  index_keys_complete ((c0, k0) ∷ rest) acc m c k e (there i) =
      let (z, n, f) = index_keys-step c0 k0 rest acc m e in index_keys_complete rest _ m c k f i

  -- What the middleware makes of a request: it lets the consumer of a key in, or keeps the request out.
  pub data Verdict {S : Type 0} (i : Instance) (next : Handler S) (now : ℕ) (r : Request)
      (info : Info) (s : S) (ran : Ran S) : Type 0 where
    let_in :
        (consumer : Str)
        → Holds i.set.keys (hash (presented i r)) consumer
        → (presented i r == [] ≡ false)
        → Covers (scopes_of i consumer) i.set.required_scopes
        → (r' : Request) → Passes i.set consumer r r'
        → ran
          ≡ next now r'
              (record info {
                consumer = consumer;
                subject = consumer;
                scopes = scopes_of i consumer;
              })
              s
        → Verdict i next now r info s ran
    kept_out :
        ran.state ≡ s
        → ran.info ≡ info
        → ran.outcome ≡ returned
        → ((w : Writer)
            → w.sent ≡ none
            → (code : ℕ) × (h : Header) × ((act_all w ran.actions).sent ≡ some (code, h))
              × (code ≡ 401 ⊎ code ≡ 403))
        → Verdict i next now r info s ran

  with_index-made :
      (st : Settings) (m : Made (Map Str Str)) (i : Instance)
      → with_index hash st m ≡ made i
      → (m ≡ made i.by_hash) × (i.set ≡ st) × (i.strip ≡ strips i.set.strip_credential)
  with_index-made st (refused x) i e = ground arith
  with_index-made st (made by_hash) i e = (ground (arith, e), ground (arith, e), ground (arith, e))

  none_or-made :
      (st : Settings) (keys : Map Str Str) (i : Instance)
      → none_or hash st keys ≡ made i
      → (index_keys hash keys [] ≡ made i.by_hash)
        × (i.set ≡ st)
        × (i.strip ≡ strips i.set.strip_credential)
  none_or-made st [] i e = ground arith
  none_or-made st (k ∷ ks) i e = with_index-made st (index_keys hash (k ∷ ks) []) i e

  keys-indexed :
      (st : Settings) (i : Instance)
      → none_or hash st st.keys ≡ made i
      → (index_keys hash i.set.keys [] ≡ made i.by_hash) × (i.strip ≡ strips i.set.strip_credential)
  keys-indexed st i e =
      let (f, g, strip) = none_or-made st st.keys i e in
      (subst (λ t. index_keys hash t.keys [] ≡ made i.by_hash) (sym g) f, strip)

  if-true : {A : Type 0} (b : Bool) (x y : A) → b ≡ true → (if b then x else y) ≡ x
  if-true b x y e = rw (e) refl

  pub if-false : {A : Type 0} (b : Bool) (x y : A) → b ≡ false → (if b then x else y) ≡ y
  if-false b x y e = rw (e) refl

  if-made :
      {A : Type 0} (b : Bool) (x : NewError) (y : Made A) {a : A}
      → (if b then refused x else y) ≡ made a
      → y ≡ made a
  if-made true x y e = ground arith
  if-made false x y e = e

  -- The index of an instance is that of its settings' keys, and it strips what they say.
  pub new_api_key-indexed :
      (st : Settings) (file : Option (Option (Map Str Str))) (i : Instance)
      → new_api_key hash st file ≡ made i
      → (index_keys hash i.set.keys [] ≡ made i.by_hash) × (i.strip ≡ strips i.set.strip_credential)
  unfolding new_api_key
  new_api_key-indexed st none i e = keys-indexed st i (if-made _ _ _ e)
  new_api_key-indexed st (some none) i e =
      let f : refused keys_file ≡ made i = if-made _ _ _ e in cc
  new_api_key-indexed st (some (some loaded)) i e =
      keys-indexed (record st { keys = merge_keys loaded st.keys }) i (if-made _ _ _ e)

  module _ (rend : Rendering) {S : Type 0} (i : Instance) (next : Handler S) (now : ℕ) (r : Request)
      (info : Info) (s : S) (strip : i.strip ≡ strips i.set.strip_credential) where
    reject-Verdict :
        (code : ℕ) (detail : Str)
        → (code ≡ 401) ⊎ (code ≡ 403)
        → is_answer code ≡ true
        → Verdict i next now r info s (reject hash rend info s code detail)
    reject-Verdict code detail c n =
        kept_out refl refl refl (λ w e.
          let (h, sent) = write_problem-sends rend (some info) _ w e n in (code, h, sent, c))

    check_scopes-Verdict :
        (consumer : Str) (ms : List Str)
        → Holds i.set.keys (hash (presented i r)) consumer
        → (presented i r == [] ≡ false)
        → missing_scopes (scopes_of i consumer) i.set.required_scopes ≡ ms
        → Verdict i next now r info s (check_scopes hash rend i next now r info s consumer ms)
    check_scopes-Verdict consumer [] h p m =
        let_in consumer h p (missing_scopes-none _ _ m) (forwarded i consumer r)
          (forwarded-Passes i consumer r strip) refl
    check_scopes-Verdict consumer (x ∷ ms) h p m = reject-Verdict 403 _ (inr refl) refl

    serve_consumer-Verdict :
        (o : Option Str)
        → index_keys hash i.set.keys [] ≡ made i.by_hash
        → (presented i r == [] ≡ false)
        → lookup (hash (presented i r)) i.by_hash ≡ o
        → Verdict i next now r info s (serve_consumer hash rend i next now r info s o)
    unfolding lookup
    serve_consumer-Verdict none ix p l = reject-Verdict 401 _ (inl refl) refl
    serve_consumer-Verdict (some c) ix p l =
        elim (index_keys_sound i.set.keys [] i.by_hash (hash (presented i r)) c ix l) [
          | inl n ↦ cc
          | inr h ↦ check_scopes-Verdict c _ h p refl
        ]

  module _ (rend : Rendering) {S : Type 0} (i : Instance) (next : Handler S) (now : ℕ) (r : Request)
      (info : Info) (s : S) where
    -- Whoever gets past the middleware has presented a key whose hash is that of a configured
    -- consumer's key, and the consumer has all the scopes that are required; the handler inside is
    -- then given this consumer with its scopes, and a request that names it if the settings give a
    -- header for that, with the other headers as they were. Unless the settings ask to keep the key,
    -- it is gone from that request, from the query or from its header, where that is not the one that
    -- names the consumer; if they do, it is there as it came. Any other request is answered with 401 or 403, and no handler runs.
    pub api_key-Verdict :
        (st : Settings) (file : Option (Option (Map Str Str)))
        → new_api_key hash st file ≡ made i
        → Verdict i next now r info s (api_key hash rend i next now r info s)
    unfolding api_key
    api_key-Verdict st file e =
        let (index, strip) = new_api_key-indexed st file i e in
        elim (Bool-cases (presented i r == [])) [
          | inl b ↦
              subst (Verdict i next now r info s) (sym (if-true _ _ _ b))
                (reject-Verdict rend i next now r info s strip 401 _ (inl refl) refl)
          | inr b ↦
              subst (Verdict i next now r info s) (sym (if-false _ _ _ b))
                (serve_consumer-Verdict rend i next now r info s strip _ index b refl)
        ]
