-- ===== src/Tests/Commands.antt =====
-- The resolution of a command's name and targets.
use routeup.Base.{if◌then◌else◌, pos, ok, codes, text_eq, ◌≡◌, refl, [], ◌∷◌}
use routeup.Tests.{plain}
use routeup.Config.File.{zero_config}
use routeup.Config.Resolve.{Inputs, Resolved, resolve, atoi}
use routeup.Config.Resolve.Laws.{Sound, resolve-Sound}

-- The environment gives a port over that of the file.
abbrev inputs : Inputs
inputs = record {
  positional_name = [];
  port_flag = pos 0;
  target_flags = [];
  env = λ name. if text_eq name (codes "ROUTEUP_PORT") then codes "4000" else [];
  file = record zero_config {
    name = codes "Web";
    port = pos 3000;
    targets = record { path = codes "/api"; port = pos 8080 } ∷ [];
  };
  dir_name = codes "dir";
}

abbrev resolved : Resolved
resolved = record {
  route = record { labels = codes "web" ∷ [] };
  port = pos 4000;
  targets =
      record { path = codes "/"; port = pos 4000 }
      ∷ record { path = codes "/api"; port = pos 8080 }
      ∷ [];
}

resolves : resolve plain inputs ≡ ok resolved
unfolding resolve routeup.Route.Target.normalize_target routeup.Route.Target.normalize_target_path
    routeup.Strings.valid_string routeup.Strings.has_control text_eq routeup.Strings.trim_space
    routeup.Strings.has_prefix routeup.Strings.contains_any routeup.Route.Target.trim_path_slash
    routeup.Config.Resolve.atoi routeup.Route.Target.normalize_targets routeup.Route.Name.parse
    routeup.Strings.to_lower routeup.Strings.has_suffix routeup.Route.Name.validate_labels
    routeup.Strings.split routeup.Route.Target.primary_port
resolves = refl

resolve-Sound_example : Sound plain inputs resolved
resolve-Sound_example = resolve-Sound plain inputs resolved resolves
