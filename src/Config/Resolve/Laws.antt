-- ===== src/Config/Resolve/Laws.antt =====
-- What a resolved command has.
use routeup.Base.{
  Text, text_eq_iff, ◌≢◌, ◌⊎◌, inr, All, ok, wrap-eq-ok, Result-cases, ◌≡◌, inl, List, [], arith,
  codes, refl, subst,
}
use routeup.Strings.{Unicode, to_lower, trim_space}
use routeup.Config.Resolve.Precedence.{Decided, chain_Decided}
use routeup.Route.Name.{Name, parse, to_string}
use routeup.Route.Name.Laws.{to_string-parse, parse-IsValid, IsValid}
use routeup.Route.Target.{Target, normalize_targets, primary_port}
use routeup.Route.Target.Normal.{DistinctFrom, IsPort, normalize_targets_sound}
use routeup.Config.Resolve.{
  Inputs, Resolved, invalid_name, resolve_targets, resolve_name, resolve_route, resolve, set_all,
  set_port, set_env,
}

-- The source of a name, the first that gives one: the argument, ROUTEUP_NAME without the spaces around
-- it, the file, the working directory.
abbrev pub Named : Unicode → Inputs → Text → Type 0
Named u i name =
    let env_name = trim_space u (i.env (codes "ROUTEUP_NAME")) in
    ((i.positional_name ≢ []) × (name ≡ i.positional_name))
    ⊎ ((i.positional_name ≡ []) × (env_name ≢ []) × (name ≡ env_name))
    ⊎ ((i.positional_name ≡ []) × (env_name ≡ []) × (i.file.name ≢ []) × (name ≡ i.file.name))
    ⊎ ((i.positional_name ≡ [])
        × (env_name ≡ [])
        × (i.file.name ≡ [])
        × (i.dir_name ≢ [])
        × (name ≡ i.dir_name))

resolve_name-Named :
    (u : Unicode) (i : Inputs) (name : Text) → resolve_name u i ≡ ok name → Named u i name
unfolding resolve_name
resolve_name-Named u i name h =
    let env_name = trim_space u (i.env (codes "ROUTEUP_NAME")) in
    ground (
      arith,
      h,
      text_eq_iff i.positional_name [],
      text_eq_iff env_name [],
      text_eq_iff i.file.name [],
      text_eq_iff i.dir_name [],
    )

-- A valid name, the lowered one of the first source that gives one, and targets with distinct paths
-- and ports in range, of which the last source that says anything decides, with the primary's port.
pub record Sound (u : Unicode) (i : Inputs) (r : Resolved) : Type 0 where
  pub valid : IsValid r.route
  pub named : (name : Text) × Named u i name × (to_string r.route ≡ to_lower u name)
  pub distinct : DistinctFrom [] r.targets
  pub ports : All (λ t. IsPort t.port) r.targets
  pub primary : r.port ≡ primary_port r.targets
  pub decided : Decided u i r.targets

resolve_route-IsValid :
    (u : Unicode) (i : Inputs) (n : Name)
    → resolve_route u i ≡ ok n
    → IsValid n × (name : Text) × (resolve_name u i ≡ ok name) × (to_string n ≡ to_lower u name)
unfolding resolve_route
resolve_route-IsValid u i n h = elim (Result-cases (resolve_name u i)) [
  | inr (e, bad) ↦ absurd (ground (arith, bad, h))
  | inl (name, good) ↦
      let parsed : parse u name ≡ ok n =
        wrap-eq-ok invalid_name (parse u name) (ground (arith, good, h)) in
      (parse-IsValid u name n parsed, name, good, to_string-parse u name n parsed)
]

resolve_targets-normal :
    (u : Unicode) (i : Inputs) (vs : List Target)
    → resolve_targets u i ≡ ok vs
    → (ts : List Target) × (normalize_targets u ts ≡ ok vs) × Decided u i vs
unfolding resolve_targets
resolve_targets-normal u i vs h = elim (Result-cases (set_port u [] i.file.port)) [
  | inr (e, bad) ↦ absurd (ground (arith, bad, h))
  | inl (t1, h1) ↦ elim (Result-cases (set_all u t1 i.file.targets)) [
    | inr (e, bad) ↦ absurd (ground (arith, h1, bad, h))
    | inl (t2, h2) ↦ elim (Result-cases (set_env u t2 (i.env (codes "ROUTEUP_PORT")))) [
      | inr (e, bad) ↦ absurd (ground (arith, h1, h2, bad, h))
      | inl (t3, h3) ↦ elim (Result-cases (set_port u t3 i.port_flag)) [
        | inr (e, bad) ↦ absurd (ground (arith, h1, h2, h3, bad, h))
        | inl (t4, h4) ↦ elim (Result-cases (set_all u t4 i.target_flags)) [
          | inr (e, bad) ↦ absurd (ground (arith, h1, h2, h3, h4, bad, h))
          | inl (t5, h5) ↦
              let normal : normalize_targets u t5 ≡ ok vs =
                ground (arith, h1, h2, h3, h4, h5, h, Result-cases (normalize_targets u t5)) in
              let some_left : t5 ≢ [] = λ e. ground (arith, h1, h2, h3, h4, h5, h, e) in
              (t5, normal, chain_Decided u i t1 t2 t3 t4 t5 vs h1 h2 h3 h4 h5 normal some_left)
        ]
      ]
    ]
  ]
]

-- What Resolve returns has a valid name, the lowered text of the first of the argument, ROUTEUP_NAME,
-- the file's name and the directory's that is not empty; targets with distinct paths and ports from 1
-- to 65535; and the port of the primary target. The last of the --target flags is among the targets;
-- without any, --port, and without it ROUTEUP_PORT, is the primary port; without these the last of
-- the file's targets is among the targets, and without any the file's port is the primary port.
pub resolve-Sound : (u : Unicode) (i : Inputs) (r : Resolved) → resolve u i ≡ ok r → Sound u i r
unfolding resolve
resolve-Sound u i r h = elim (Result-cases (resolve_targets u i)) [
  | inr (e, bad) ↦ absurd (ground (arith, bad, h))
  | inl (vs, good) ↦ elim (Result-cases (resolve_route u i)) [
    | inr (e, bad) ↦ absurd (ground (arith, good, bad, h))
    | inl (n, parsed) ↦
        let (ts, normal, decided) = resolve_targets-normal u i vs good in
        let (_, distinct, ports) = normalize_targets_sound u ts vs normal in
        let (valid, name, found, text) = resolve_route-IsValid u i n parsed in
        let same : record { route = n; port = primary_port vs; targets = vs } ≡ r =
          ground (arith, good, parsed, h) in
        subst (Sound u i) same (record {
          valid = valid;
          named = (name, resolve_name-Named u i name found, text);
          distinct = distinct;
          ports = ports;
          primary = refl;
          decided = decided;
        })
  ]
]
