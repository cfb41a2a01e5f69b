-- ===== src/Server/Authorize/Placement.antt =====
-- Where a label is placed under a token's patterns.
use routeup.Base.{
  Text, Bool-cases, Option-cases, In, ok, text_eq, text_eq_iff, ◌≡◌, ◌≢◌, ◌⊎◌, inl, inr, true,
  false, some, List, [], ◌∷◌, arith, refl,
}
use routeup.Strings.{Unicode, has_suffix}
use routeup.Server.Authorize.{Authorizer, placement_allowed, in_domain, place_under_token}
use routeup.Server.Host.{derive_token_host, immediate_child_label}
use routeup.Server.Allow.{AllowPattern}
use routeup.Server.Reserved.{ReservedSet, has}

-- What the token tiers allow: at the root no reserved and no namespace label, in a namespace any
-- label, if the namespace's own is not reserved.
abbrev pub Tier : Unicode → Authorizer → ReservedSet → Text → Text → Type 0
Tier u a ns label base =
    ((base ≡ a.cfg.domain) × (has u a.reserved label ≡ false) × (has u ns label ≡ false))
    ⊎ ((ns_label : Text) × (base ≢ a.cfg.domain)
        × (has_suffix (b'.' ∷ a.cfg.domain) base ≡ true)
        × (immediate_child_label u base a.cfg.domain ≡ some ns_label)
        × (has u a.reserved ns_label ≡ false))

-- A base and a host that a list of patterns gives a label.
pub record Placed (u : Unicode) (a : Authorizer) (ns : ReservedSet) (label : Text)
    (ps : List AllowPattern) (host base : Text) : Type 0 where
  pub pattern : AllowPattern
  pub among : In pattern ps
  pub same_base : pattern.suffix ≡ base
  pub same_host : host ≡ derive_token_host u label base
  pub tier : Tier u a ns label base

placement_allowed-Tier :
    (u : Unicode) (a : Authorizer) (ns : ReservedSet) (label base : Text)
    → in_domain a base ≡ true
    → placement_allowed u a label base ns ≡ true
    → Tier u a ns label base
unfolding placement_allowed
placement_allowed-Tier u a ns label base i h = elim (Bool-cases (text_eq base a.cfg.domain)) [
  | inl root ↦
      inl ((text_eq_iff base a.cfg.domain).0 root, ground (arith, root, h), ground (arith, root, h))
  | inr deeper ↦ elim (Option-cases (immediate_child_label u base a.cfg.domain)) [
    | inl missed ↦ absurd (ground (arith, deeper, missed, h))
    | inr (l, found) ↦ inr (
      l,
      ground (arith, deeper, text_eq_iff base a.cfg.domain),
      ground (arith, deeper, i),
      found,
      ground (arith, deeper, found, h),
    )
  ]
]

pub place_under_token_sound :
    (u : Unicode) (a : Authorizer) (ns : ReservedSet) (label : Text) (ps : List AllowPattern)
    (host base : Text)
    → place_under_token u a label ps ns ≡ ok (host, base)
    → Placed u a ns label ps host base
unfolding place_under_token
place_under_token_sound u a ns label [] host base h = cc
place_under_token_sound u a ns label (p ∷ ps) host base h =
    let later : Placed u a ns label ps host base → Placed u a ns label (p ∷ ps) host base = λ w.
      record {
        pattern = w.pattern;
        among = inr w.among;
        same_base = w.same_base;
        same_host = w.same_host;
        tier = w.tier;
      } in
    elim (Bool-cases (in_domain a p.suffix)) [
      | inr outside ↦
          later (place_under_token_sound u a ns label ps host base (ground (arith, outside, h)))
      | inl inside ↦ elim (Bool-cases (placement_allowed u a label p.suffix ns)) [
        | inr refused ↦
            later (
              place_under_token_sound u a ns label ps host base
                (ground (arith, inside, refused, h)))
        | inl allowed ↦
            let same : p.suffix ≡ base = ground (arith, inside, allowed, h) in
            record {
              pattern = p;
              among = inl refl;
              same_base = same;
              same_host = ground (arith, inside, allowed, h);
              tier = rw (← same) (placement_allowed-Tier u a ns label p.suffix inside allowed);
            }
      ]
    ]
