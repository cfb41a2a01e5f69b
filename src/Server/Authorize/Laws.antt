-- ===== src/Server/Authorize/Laws.antt =====
-- What a decision grants.
use routeup.Server.Allow.Laws.{matches_iff}
use routeup.Base.{
  Text, In, ok, ◌≡◌, inl, inr, true, false, List, [], ◌∷◌, arith, length, All, All-In, Result-cases,
  refl, subst, ◌∙◌, ◌++◌, sym,
}
use routeup.Strings.{Unicode, join}
use routeup.Server.Holds.{by_token}
use routeup.Server.Authorize.{
  Authorizer, resolve_public_label, place_under_token, Decision, namespace_labels,
  authorize_verified_token,
}
use routeup.Server.Host.Laws.{
  IsDnsName, derive_token_host-eq, clean_of_host_chars, label-Lacks_dot, label-ne-nil,
  host-IsHostChar,
}
use routeup.Server.Allow.{AllowPattern, matches}
use routeup.Server.Reserved.{ReservedSet}
use routeup.Server.Tokens.{Token, Tables, Faults}
use routeup.Route.Name.Laws.{IsLabel, parse-IsValid}
use routeup.Route.Name.{to_string, parse}
use routeup.Server.Authorize.Placement.{Tier, place_under_token_sound}

single-IsLabel : (ls : List Text) → All IsLabel ls → length ls ≡ 1 → IsLabel (join b'.' ls)
unfolding join
single-IsLabel [] v e = absurd (omega (arith, e))
single-IsLabel (l ∷ []) v e = v.0
single-IsLabel (l ∷ m ∷ ms) v e = absurd (omega (arith, e))

-- The label of a claim is one DNS label.
pub resolve_public_label-IsLabel :
    (u : Unicode) (route label : Text) → resolve_public_label u route ≡ ok label → IsLabel label
unfolding resolve_public_label to_string
resolve_public_label-IsLabel u route label h = elim (Result-cases (parse u route)) [
  | inr (e, bad) ↦ absurd (ground (arith, bad, h))
  | inl (n, good) ↦
      let one : length n.labels ≡ 1 = ground (arith, good, h) in
      let same : join b'.' n.labels ≡ label = ground (arith, good, h) in
      subst IsLabel same (single-IsLabel n.labels (parse-IsValid u route n good).all_labels one)
]

-- What an authorized claim of a verified token gets: a label of its own under the base of one of
-- the token's patterns, which matches the host.
pub record Granted (u : Unicode) (a : Authorizer) (ns : ReservedSet) (tok : Token) (d : Decision)
    : Type 0 where
  pub label : Text
  pub is_label : IsLabel label
  pub pattern : AllowPattern
  pub among : In pattern tok.patterns
  pub same_base : pattern.suffix ≡ d.base
  pub same_host : d.host ≡ label ++ (b'.' ∷ d.base)
  pub covered : matches u pattern d.host ≡ true
  pub tier : Tier u a ns label d.base
  pub holder : d.hold_req ≡ record { host = d.host; kind = by_token; token_id = tok.id }

abbrev token_decision : Token → Text → Text → Decision
token_decision tok host base = record {
  host = host;
  mode = by_token;
  ephemeral = false;
  base = base;
  hold_req = record { host = host; kind = by_token; token_id = tok.id };
}

steps :
    (u : Unicode) (f : Faults) (db : Tables) (a : Authorizer) (route : Text) (tok : Token)
    (d : Decision)
    → authorize_verified_token u f db a route tok ≡ ok d
    → (label : Text) × (ns : ReservedSet) × (host : Text) × (base : Text) × (resolve_public_label u
          route
        ≡ ok label)
      × (namespace_labels u f db a ≡ ok ns)
      × (place_under_token u a label tok.patterns ns ≡ ok (host, base))
      × (token_decision tok host base ≡ d)
unfolding authorize_verified_token
steps u f db a route tok d h = elim (Result-cases (resolve_public_label u route)) [
  | inr (e, bad) ↦ absurd (ground (arith, bad, h))
  | inl (label, resolved) ↦ elim (Result-cases (namespace_labels u f db a)) [
    | inr (e, bad) ↦ absurd (ground (arith, resolved, bad, h))
    | inl (ns, loaded) ↦ elim (Result-cases (place_under_token u a label tok.patterns ns)) [
      | inr (e, bad) ↦ absurd (ground (arith, resolved, loaded, bad, h))
      | inl ((host, base), placed) ↦ (
        label,
        ns,
        host,
        base,
        resolved,
        loaded,
        placed,
        ground (arith, resolved, loaded, placed, h),
      )
    ]
  ]
]

-- Whoever has a verified token whose patterns' bases are DNS names, as loadPatterns reads them, and
-- gets a decision, gets a host of one DNS label under the base of one of the token's patterns, which
-- matches it; at the root the label is neither reserved nor a namespace label, and in a namespace
-- the namespace's label is not reserved; and the hold is asked for that host in the token's name.
pub authorize_verified_token_sound :
    (u : Unicode) (f : Faults) (db : Tables) (a : Authorizer) (route : Text) (tok : Token)
    (d : Decision)
    → All (λ p. IsDnsName p.suffix) tok.patterns
    → authorize_verified_token u f db a route tok ≡ ok d
    → (ns : ReservedSet) × (namespace_labels u f db a ≡ ok ns) × Granted u a ns tok d
authorize_verified_token_sound u f db a route tok d dns h =
    let (label, ns, host, base, resolved, loaded, placed, same) = steps u f db a route tok d h in
    let w = place_under_token_sound u a ns label tok.patterns host base placed in
    let v = resolve_public_label-IsLabel u route label resolved in
    let base_dns : IsDnsName base =
      subst IsDnsName w.same_base (All-In _ tok.patterns dns w.pattern w.among) in
    let text = w.same_host ∙ derive_token_host-eq u label base v base_dns in
    (
      ns,
      loaded,
      subst (Granted u a ns tok) same (record {
        label = label;
        is_label = v;
        pattern = w.pattern;
        among = w.among;
        same_base = w.same_base;
        same_host = text;
        covered =
            (matches_iff u w.pattern host (λ e. base_dns.some_byte (sym w.same_base ∙ e))).1
              (record {
                label = label;
                some_byte = label-ne-nil label v;
                single = label-Lacks_dot label v;
                split_host =
                    rw (text, w.same_base)
                      (clean_of_host_chars u (label ++ (b'.' ∷ base))
                        (host-IsHostChar label base v base_dns));
              });
        tier = w.tier;
        holder = refl;
      }),
    )
