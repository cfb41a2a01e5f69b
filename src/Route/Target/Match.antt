-- ===== src/Route/Target/Match.antt =====
-- MatchTarget returns a matching target with the longest path, and none only if none matches.
use routeup.Base.{
  Text, length, In, ◌≤◌, ◌≡◌, true, false, Option, none, some, List, Bool-cases, Option-cases, All,
  All-In_self, text_eq, text_eq_iff, ◌↔◌, ◌⊎◌, inl, inr, ◌||◌, [], ◌∷◌, ◌++◌, arith,
}
use routeup.Strings.{has_prefix, cut_prefix}
use routeup.Strings.Laws.{cut_prefix-append, cut_prefix-eq_some}
use routeup.Route.Target.{
  Target, target_path_matches, better, root, rooted, match_from, match_target,
}

-- What a loop's result owes to one target that it saw.
abbrev pub Covers : Text → Target → Option Target → Type 0
Covers path t none = target_path_matches t.path path ≡ false
Covers path t (some m) = target_path_matches t.path path ≡ true → length t.path ≤ length m.path

-- The result is a matching target.
abbrev pub Matching : Text → List Target → Option Target → Type 0
Matching path ts none = Unit
Matching path ts (some m) = In m ts × (target_path_matches m.path path ≡ true)

better-Covers_self :
    (path : Text) (t : Target) (best : Option Target) → Covers path t (better path t best)
unfolding better
better-Covers_self path t none = ground arith
better-Covers_self path t (some m) = ground arith

better-Covers :
    (path : Text) (t s : Target) (best : Option Target)
    → Covers path s best
    → Covers path s (better path t best)
unfolding better
better-Covers path t s none h = ground arith
better-Covers path t s (some m) h = ground arith

better-Matching :
    (path : Text) (ts : List Target) (t : Target) (best : Option Target)
    → In t ts
    → Matching path ts best
    → Matching path ts (better path t best)
unfolding better
better-Matching path ts t none i h = ground arith
better-Matching path ts t (some m) i h = ground arith

match_from-Covers_old :
    (path : Text) (s : Target) (best : Option Target) (ts : List Target)
    → Covers path s best
    → Covers path s (match_from path best ts)
unfolding match_from
match_from-Covers_old path s best [] h = h
match_from-Covers_old path s best (t ∷ ts) h =
    match_from-Covers_old path s (better path t best) ts (better-Covers path t s best h)

match_from-Covers :
    (path : Text) (best : Option Target) (ts : List Target)
    → All (λ t. Covers path t (match_from path best ts)) ts
unfolding match_from
match_from-Covers path best [] = tt
match_from-Covers path best (t ∷ ts) = (
  match_from-Covers_old path t (better path t best) ts (better-Covers_self path t best),
  match_from-Covers path (better path t best) ts,
)

match_from-Matching :
    (path : Text) (all : List Target) (best : Option Target) (ts : List Target)
    → All (λ t. In t all) ts
    → Matching path all best
    → Matching path all (match_from path best ts)
unfolding match_from
match_from-Matching path all best [] i h = h
match_from-Matching path all best (t ∷ ts) (i, is) h =
    match_from-Matching path all (better path t best) ts is (better-Matching path all t best i h)

-- MatchTarget's result is one of the targets and matches the rooted request path; no matching
-- target has a longer path; and it finds none only if no target matches.
pub match_target-longest :
    (ts : List Target) (path : Text)
    → Matching (rooted path) ts (match_target ts path)
      × All (λ t. Covers (rooted path) t (match_target ts path)) ts
unfolding match_target
match_target-longest ts path = (
  match_from-Matching (rooted path) ts none ts (All-In_self ts) tt,
  match_from-Covers (rooted path) none ts,
)

prefix-cases : (p s : Text) → (has_prefix p s ≡ true) ↔ ((r : Text) × (s ≡ p ++ r))
unfolding has_prefix
prefix-cases p s = (
  (λ h. elim (Option-cases (cut_prefix p s)) [
    | inl e ↦ cc (rw e at h)
    | inr (r, e) ↦ (r, cut_prefix-eq_some p s r e)
  ]),
  (λ h. rw (h.1, cut_prefix-append p h.0)),
)

-- A prefix matches whole path segments only: "/api" matches "/api" and "/api/x", not "/apix".
pub target_path_matches_iff :
    (prefix path : Text)
    → (target_path_matches prefix path ≡ true)
      ↔ ((prefix ≡ root) ⊎ (path ≡ prefix) ⊎ ((r : Text) × (path ≡ (prefix ++ root) ++ r)))
unfolding target_path_matches
target_path_matches_iff prefix path = (split, together)
  where
    split :
        (text_eq prefix root || (text_eq path prefix || has_prefix (prefix ++ root) path)) ≡ true
        → (prefix ≡ root) ⊎ (path ≡ prefix) ⊎ ((r : Text) × (path ≡ (prefix ++ root) ++ r))
    split h = elim (Bool-cases (text_eq prefix root)) [
      | inl e ↦ inl ((text_eq_iff _ _).0 e)
      | inr e ↦ elim (Bool-cases (text_eq path prefix)) [
        | inl f ↦ inr (inl ((text_eq_iff _ _).0 f))
        | inr f ↦ inr (inr ((prefix-cases (prefix ++ root) path).0 (rw (e, f) at h)))
      ]
    ]

    together :
        (prefix ≡ root) ⊎ (path ≡ prefix) ⊎ ((r : Text) × (path ≡ (prefix ++ root) ++ r))
        → (text_eq prefix root || (text_eq path prefix || has_prefix (prefix ++ root) path)) ≡ true
    together (inl e) = ground (arith, text_eq_iff prefix root)
    together (inr (inl e)) = ground (arith, text_eq_iff path prefix)
    together (inr (inr e)) = ground (arith, (prefix-cases (prefix ++ root) path).1 e)
