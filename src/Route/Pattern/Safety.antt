-- ===== src/Route/Pattern/Safety.antt =====
-- PathAllowed fails closed: a request that a restricted exposure lets through has a plain path, on
-- the wire and after every decoding.
use routeup.Base.{
  Text, if◌then◌else◌, Bool-cases, Option-cases, any, In, text_eq, text_eq_iff, ℕ, zero, suc, ◌≡◌,
  refl, ◌⊎◌, inl, inr, true, false, some, List, [], ◌∷◌, ◌++◌, arith, any-In, sym, subst,
}
use routeup.Strings.{Unicode, cut_suffix}
use routeup.Strings.Laws.{cut_suffix-eq_some}
use routeup.Route.Target.{target_path_matches, rooted}
use routeup.Route.Pattern.{
  all_paths, ambiguous_decoded_path, path_unescape, escaped_path, decodes_safely,
  unambiguous_request_path, pattern_covers, path_allowed,
}

-- Decoding reaches a text that decodes to itself, and each text on the way is unambiguous.
pub data Settles : Text → Type 0 where
  settled : (p : Text) → path_unescape p ≡ some p → Settles p
  decoded :
      (p q : Text)
      → path_unescape p ≡ some q
      → ambiguous_decoded_path q ≡ false
      → Settles q
      → Settles p

decodes_safely-Settles : (u : Unicode) (n : ℕ) (p : Text) → decodes_safely u n p ≡ true → Settles p
unfolding decodes_safely
decodes_safely-Settles u zero p h = cc
decodes_safely-Settles u (suc n) p h = elim (Option-cases (path_unescape p)) [
  | inl e ↦ absurd (ground arith)
  | inr (q, e) ↦ elim (Bool-cases (text_eq q p)) [
    | inl same ↦ settled p (subst (λ t. path_unescape p ≡ some t) ((text_eq_iff q p).0 same) e)
    | inr other ↦ decoded p q e (ground arith) (decodes_safely-Settles u n q (ground arith))
  ]
]

-- The escaped form that is decoded: the request's own, or that of its path.
abbrev pub wire : Text → Text → Text
wire path escaped = if text_eq escaped [] then escaped_path path else escaped

pub record IsPlain (path escaped : Text) : Type 0 where
  pub plain : ambiguous_decoded_path path ≡ false
  pub settles : Settles (wire path escaped)

unambiguous-IsPlain :
    (u : Unicode) (path escaped : Text)
    → unambiguous_request_path u path escaped ≡ true
    → IsPlain path escaped
unfolding unambiguous_request_path
unambiguous-IsPlain u path escaped h = elim (Bool-cases (ambiguous_decoded_path path)) [
  | inl e ↦ absurd (ground arith)
  | inr e ↦ record { plain = e; settles = decodes_safely-Settles u 3 _ (rw e at h) }
]

-- What a pattern covers: the paths at or below a prefix, or one path.
abbrev pub Covered : Text → Text → Type 0
Covered path pattern =
    ((prefix : Text) × (pattern ≡ prefix ++ all_paths) × (target_path_matches prefix path ≡ true))
    ⊎ (path ≡ pattern)

pattern_covers-Covered :
    (path pattern : Text) → pattern_covers path pattern ≡ true → Covered path pattern
unfolding pattern_covers
pattern_covers-Covered path pattern h = elim (Option-cases (cut_suffix all_paths pattern)) [
  | inl e ↦ inr ((text_eq_iff path pattern).0 (ground arith))
  | inr (prefix, e) ↦ inl (prefix, cut_suffix-eq_some _ pattern prefix e, ground arith)
]

any-In_text : (t : Text) (ts : List Text) → any (text_eq t) ts ≡ true → In t ts
any-In_text t ts h =
    let (x, i, e) = any-In (text_eq t) ts h in subst (λ y. In y ts) (sym ((text_eq_iff t x).0 e)) i

-- What the second loop of PathAllowed, and the test before it, let through.
abbrev pub Restricted : List Text → Text → Text → Type 0
Restricted patterns path escaped =
    IsPlain path escaped × (pattern : Text) × In pattern patterns × Covered path pattern

Restricted-safe :
    (u : Unicode) (ps : List Text) (path escaped : Text)
    → unambiguous_request_path u path escaped ≡ true
    → any (pattern_covers path) ps ≡ true
    → Restricted ps path escaped
Restricted-safe u ps path escaped plain covered =
    let (pattern, i, c) = any-In (pattern_covers path) ps covered in
    (unambiguous-IsPlain u path escaped plain, pattern, i, pattern_covers-Covered path pattern c)

-- A request that is let through meets an exposure of all paths, or else its path and each of its
-- decodings are free of backslashes and dot segments, decoding comes to rest, and some pattern of
-- the list covers the path.
pub path_allowed-safe :
    (u : Unicode) (patterns : List Text) (path escaped : Text)
    → path_allowed u patterns path escaped ≡ true
    → (patterns ≡ [])
      ⊎ In all_paths patterns
      ⊎ (IsPlain (rooted path) escaped
          × (pattern : Text) × In pattern patterns
          × Covered (rooted path) pattern)
unfolding path_allowed
path_allowed-safe u [] path escaped h = inl refl
path_allowed-safe u (p ∷ ps) path escaped h = elim (Bool-cases (any (text_eq all_paths) (p ∷ ps))) [
  | inl e ↦ inr (inl (any-In_text all_paths (p ∷ ps) e))
  | inr e ↦
      inr (inr (Restricted-safe u (p ∷ ps) (rooted path) escaped (ground arith) (ground arith)))
]
