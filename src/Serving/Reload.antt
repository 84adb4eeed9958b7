-- ===== src/Serving/Reload.antt =====
-- internal/runtime/server.go: NewServer and Reload. Loading the configuration and building a runtime
-- from it are arguments that may fail; a runtime is of any type `R`, a configuration of any type `C`.
use nina.Prelude.{
  ℕ, ◌+◌, arith, ◌≡◌, refl, Bool, true, Option, none, some, List, [], ◌∷◌, ◌++◌, Str, nat_beq,
  if◌then◌else◌, Option-cases, inl, inr,
}
use nina.Scanguard.Guard.{Ip, Net}
use nina.Reqctx.{parse_cidrs}

pub record Settings : Type 0 where
  pub trusted_proxies : List (Ip × ℕ)
  pub max_body : ℕ

-- The server: the runtimes that it has retired, each with its grace, stand with the latest first.
pub record Server (R : Type 0) : Type 0 where
  pub current : Option R
  pub settings : Settings
  pub generation : ℕ
  pub ready : Bool
  pub drain_grace : ℕ
  pub retired : List (R × ℕ)

-- Where a reload failed, as it is logged.
pub data Stage : Type 0 where
  config_stage build_stage : Stage

-- What Reload asks of a configuration, and of the parser of networks.
pub record Building (C R : Type 0) : Type 1 where
  pub build : C → ℕ → Option R
  pub trusted_cidrs : C → List Str
  pub max_body_of : C → ℕ
  pub net : Net
  pub parse_cidr : Str → Option (Ip × ℕ)

module _ {C R : Type 0} (b : Building C R) where
  open b use {build, trusted_cidrs, max_body_of, net, parse_cidr}

  abbrev pub networks : C → Option (List (Ip × ℕ))
  networks c = parse_cidrs net parse_cidr (trusted_cidrs c)

  abbrev retire_old : Option R → ℕ → List (R × ℕ) → List (R × ℕ)
  retire_old none grace rs = rs
  retire_old (some old) grace rs = (old, grace) ∷ rs

  -- The runtime is built: the networks, and the swap.
  abbrev pub install : C → R → Option (List (Ip × ℕ)) → Server R → Server R × Option Stage
  install c rt none s = (record s { retired = (rt, 0) ∷ s.retired }, some config_stage)
  install c rt (some nets) s = (
    record s {
      current = some rt;
      settings = record { trusted_proxies = nets; max_body = max_body_of c };
      retired = retire_old s.current s.drain_grace s.retired;
    },
    none,
  )

  abbrev install_built : C → Option R → Server R → Server R × Option Stage
  install_built c none s = (s, some build_stage)
  install_built c (some rt) s = install c rt (networks c) s

  -- Reload, with what config.Load gave; a build takes the next generation whether it succeeds or not.
  unfoldable pub reload : Option C → Server R → Server R × Option Stage
  reload none s = (s, some config_stage)
  reload (some c) s =
      let next : Server R = record s { generation = s.generation + 1 } in
      install_built c (build c next.generation) next

  abbrev built_server : C → ℕ → List (Ip × ℕ) → Option R → Option (Server R)
  built_server c grace nets none = none
  built_server c grace nets (some rt) = some (record {
    current = some rt;
    settings = record { trusted_proxies = nets; max_body = max_body_of c };
    generation = 1;
    ready = true;
    drain_grace = grace;
    retired = [];
  })

  abbrev server_within : C → ℕ → Option (List (Ip × ℕ)) → Option (Server R)
  server_within c grace none = none
  server_within c grace (some nets) = built_server c grace nets (build c 1)

  -- NewServer: a grace of 0 stands for 30 seconds.
  unfoldable pub new_server : C → ℕ → Option (Server R)
  new_server c grace = server_within c (if nat_beq grace 0 then 30000000000 else grace) (networks c)

  -- What a reload has built, if it came so far.
  abbrev pub built_by : Option C → ℕ → Option R
  built_by none generation = none
  built_by (some c) generation = build c generation

  abbrev pub dropped : Option R → List (R × ℕ)
  dropped none = []
  dropped (some rt) = (rt, 0) ∷ []

  -- A reload that fails leaves the running runtime and the settings as they are, and retires at once
  -- what it has built itself.
  pub reload-fails :
      (loaded : Option C) (s : Server R) (stage : Stage)
      → (reload loaded s).1 ≡ some stage
      → let s' = (reload loaded s).0 in
        (s'.current ≡ s.current)
        × (s'.settings ≡ s.settings)
        × (s'.ready ≡ s.ready)
        × (s'.retired ≡ dropped (built_by loaded (s.generation + 1)) ++ s.retired)
  unfolding reload
  reload-fails none s stage e = (refl, refl, refl, refl)
  reload-fails (some c) s stage e = elim (Option-cases (build c (s.generation + 1))) [
    | inl f ↦ rw (f) (refl, refl, refl, refl)
    | inr (rt, f) ↦ elim (Option-cases (networks c)) [
      | inl g ↦ rw (f, g) (refl, refl, refl, refl)
      | inr (nets, g) ↦ ground (arith, e, f, g)
    ]
  ]

  -- A reload that succeeds serves the runtime it has built from the configuration it has loaded, with
  -- that configuration's settings, under the next generation; the runtime before it, and no other, is
  -- retired, with the server's grace.
  pub reload-succeeds :
      (loaded : Option C) (s : Server R) (old : R)
      → s.current ≡ some old
      → (reload loaded s).1 ≡ none
      → let s' = (reload loaded s).0 in
        (c : C) × (rt : R) × (nets : List (Ip × ℕ)) × (loaded ≡ some c)
        × (build c (s.generation + 1) ≡ some rt)
        × (networks c ≡ some nets)
        × (s' ≡ record {
          current = some rt;
          settings = record { trusted_proxies = nets; max_body = max_body_of c };
          generation = s.generation + 1;
          ready = s.ready;
          drain_grace = s.drain_grace;
          retired = (old, s.drain_grace) ∷ s.retired;
        })
  unfolding reload
  reload-succeeds none s old o e = ground arith
  reload-succeeds (some c) s old o e = elim (Option-cases (build c (s.generation + 1))) [
    | inl f ↦ ground (arith, e, f)
    | inr (rt, f) ↦ elim (Option-cases (networks c)) [
      | inl g ↦ ground (arith, e, f, g)
      | inr (nets, g) ↦ (c, rt, nets, refl, f, g, rw (f, g, o) refl)
    ]
  ]
