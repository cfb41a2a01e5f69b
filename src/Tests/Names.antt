-- ===== src/Tests/Names.antt =====
-- Route names, targets, path patterns and public hosts.
use routeup.Base.{
  Text, All, In, pos, ok, codes, ◌≡◌, refl, ◌↔◌, ◌⊎◌, true, some, List, [], ◌∷◌, ◌++◌, text_eq,
}
use routeup.Tests.{plain}
use routeup.Route.Name.{Name, parse, to_string, local_host, route_name_from_host, validate_labels}
use routeup.Route.Name.Laws.{IsValid, IsLabel, parse-IsValid, parse-to_string}
use routeup.Route.Target.{
  Target, root, normalize_targets, target_path_matches, rooted, match_target, trim_path_slash,
  normalize_target_path, normalize_target,
}
use routeup.Route.Pattern.{
  path_allowed, all_paths, ambiguous_decoded_path, path_unescape, escaped_path, contains_text,
  decodes_safely, unambiguous_request_path, pattern_covers,
}
use routeup.Route.Pattern.Safety.{path_allowed-safe, IsPlain, Covered}
use routeup.Server.Host.{validate_label, validate_dns_name}
use routeup.Strings.{
  to_lower, trim_space, valid_string, has_control, has_prefix, cut_suffix, has_suffix,
  contains_byte, contains_any, split,
}
use routeup.Server.Host.Laws.{IsDnsName, server-IsLabel_sound, validate_dns_name_sound}
use routeup.Server.Allow.{AllowPattern}

abbrev web : Name
web = record { labels = codes "api" ∷ codes "myapp" ∷ [] }

parses_web : parse plain (codes "API.myapp") ≡ ok web
unfolding parse routeup.Base.text_eq to_lower routeup.Strings.has_suffix
    routeup.Route.Name.validate_labels routeup.Strings.split
parses_web = refl

web-IsValid : IsValid web
web-IsValid = parse-IsValid plain (codes "API.myapp") web parses_web

parse-to_string_example : parse plain (to_string web) ≡ ok web
parse-to_string_example = parse-to_string plain web web-IsValid

abbrev front : Target
front = record { path = root; port = pos 3000 }

abbrev back : Target
back = record { path = codes "/api"; port = pos 8080 }

abbrev given_targets : List Target
given_targets = front ∷ record { path = codes " /api/ "; port = pos 8080 } ∷ []

abbrev two_targets : List Target
two_targets = front ∷ back ∷ []

normal_targets : normalize_targets plain given_targets ≡ ok two_targets
unfolding normalize_targets routeup.Route.Target.normalize_target
    routeup.Route.Target.normalize_target_path routeup.Strings.valid_string
    routeup.Strings.has_control routeup.Base.text_eq trim_space routeup.Strings.has_prefix
    routeup.Strings.contains_any routeup.Route.Target.trim_path_slash
normal_targets = refl

abbrev hooks : List Text
hooks = codes "/hooks/*" ∷ []

hooks_allowed : path_allowed plain hooks (codes "/hooks/stripe") [] ≡ true
unfolding path_allowed routeup.Base.text_eq routeup.Route.Pattern.unambiguous_request_path
    routeup.Route.Pattern.ambiguous_decoded_path routeup.Strings.contains_byte rooted
    routeup.Strings.has_prefix routeup.Strings.split routeup.Route.Pattern.decodes_safely
    routeup.Route.Pattern.contains_text to_lower routeup.Route.Pattern.escaped_path
    routeup.Route.Pattern.path_unescape routeup.Route.Pattern.pattern_covers
    routeup.Strings.cut_suffix target_path_matches
hooks_allowed = refl

abbrev Safe : List Text → Text → Type 0
Safe patterns path =
    (patterns ≡ [])
    ⊎ In all_paths patterns
    ⊎ (IsPlain (rooted path) []
        × (pattern : Text) × In pattern patterns
        × Covered (rooted path) pattern)

path_allowed-safe_example : Safe hooks (codes "/hooks/stripe")
path_allowed-safe_example = path_allowed-safe plain hooks (codes "/hooks/stripe") [] hooks_allowed

abbrev alice : AllowPattern
alice = record { suffix = codes "alice.routeup.dev" }

alice_dns : IsDnsName (codes "alice.routeup.dev")
unfolding validate_dns_name routeup.Base.text_eq routeup.Strings.split
alice_dns = validate_dns_name_sound (codes "alice.routeup.dev") refl

blog-IsLabel : IsLabel (codes "blog")
unfolding validate_label
blog-IsLabel = server-IsLabel_sound (codes "blog") refl
