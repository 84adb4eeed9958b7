-- ===== src/Mw/ApiKey/Admission.antt =====
-- That a consumer gets in with its key.
use nina.Prelude.{ℕ, ◌≡◌, ◌∙◌, ap, false, Option, [], In, Str, str_eq, ◌==◌}
use nina.Prelude.Map.{Map}
use nina.Reqctx.{Info, Request}
use nina.Httperr.{Rendering}
use nina.Serving.{Handler}
use nina.Mw.ApiKey.{
  Settings, Instance, made, new_api_key, missing_scopes, presented, scopes_of, with_consumer,
  forwarded, serve_consumer, check_scopes, api_key,
}
use nina.Mw.ApiKey.Access.{index_keys_complete, new_api_key-indexed, if-false}

module _ (hash : Str → Str) (rend : Rendering) {S : Type 0} (i : Instance) (next : Handler S) where
  -- A request with the key of a configured consumer that has all the scopes that are required is
  -- answered by the handler inside, as this consumer's.
  pub api_key-admits :
      (st : Settings) (file : Option (Option (Map Str Str))) (now : ℕ) (r : Request) (info : Info)
      (s : S) (consumer : Str)
      → new_api_key hash st file ≡ made i
      → In (consumer, presented i r) i.set.keys
      → presented i r == [] ≡ false
      → missing_scopes (scopes_of i consumer) i.set.required_scopes ≡ []
      → api_key hash rend i next now r info s
        ≡ next now (forwarded i consumer r) (with_consumer i consumer info) s
  unfolding api_key
  api_key-admits st file now r info s consumer e c p m =
      let l =
        index_keys_complete hash i.set.keys [] i.by_hash consumer (presented i r)
          (new_api_key-indexed hash st file i e).0 c in
      if-false hash (presented i r == []) _ _ p
      ∙ ap (serve_consumer hash rend i next now r info s) l
      ∙ ap (check_scopes hash rend i next now r info s consumer) m
