-- ===== src/Tests/Configs.antt =====
-- A configuration, where it is from, and the environment of the child.
use routeup.Base.{
  Text, if◌then◌else◌, pos, ok, codes, text_eq, ◌≡◌, refl, some, List, [], ◌∷◌, ◌++◌,
}
use routeup.Strings.{contains_byte, to_lower, has_prefix, has_suffix, split, cut_prefix}
use routeup.Strings.Laws.{Lacks}
use routeup.Tests.{plain}
use routeup.Config.File.{Config, zero_config, validate}
use routeup.Config.Load.{Files, missing, contents, source_package_json, Discovered}
use routeup.Process.Env.{EnvInputs, inject_env}
use routeup.Process.Env.Entries.{values}
use routeup.Process.Env.Laws.{values-inject_env_one, inject_env-hides_token}

abbrev web_config : Config
web_config = record zero_config {
  name = codes "web";
  port = pos 3000;
  script = codes "dev";
  port_env_var = codes "WEB_PORT";
}

web_config-valid : validate plain web_config ≡ ok tt
unfolding validate text_eq routeup.Route.Name.parse routeup.Strings.to_lower
    routeup.Strings.has_suffix routeup.Route.Name.validate_labels routeup.Strings.split
    routeup.Route.Target.normalize_targets routeup.Route.Pattern.normalize_path_patterns
    routeup.Strings.has_prefix
web_config-valid = refl

-- A directory with a package.json that has a block.
abbrev files : Files
files = record {
  read_file =
      λ path. if text_eq path (codes "/p/package.json") then contents (codes "{}") else missing;
  decode_config = λ s. some web_config;
  decode_package =
      λ s. some (record { routeup = codes "{}"; scripts = (codes "dev", codes "vite") ∷ [] });
  abs = λ dir. some (codes "/p");
  join_path = λ dir name. dir ++ b'/' ∷ name;
}

abbrev found : Discovered
found = record {
  config = record web_config { script = []; command = codes "vite" };
  path = codes "/p/package.json";
  source = source_package_json;
}

abbrev env_inputs : EnvInputs
env_inputs = record {
  port = pos 3000;
  port_env_var = codes "WEB_PORT";
  host = [];
  local_url = codes "http://web.localhost";
  public_url = [];
  ca_cert_path = [];
  work_dir = codes "/p";
}

abbrev base : List Text
base = codes "ROUTEUP_TOKEN=sk" ∷ codes "PATH=/bin" ∷ codes "HOST=h" ∷ []

abbrev bin : Text → Text
bin dir = dir ++ codes "/node_modules/.bin"

web_port-Lacks : Lacks b'=' (codes "WEB_PORT")
unfolding contains_byte
web_port-Lacks = refl

host_before : values (codes "HOST") base ≡ codes "h" ∷ []
unfolding values cut_prefix text_eq
host_before = refl

host-Lacks : Lacks b'=' (codes "HOST")
unfolding contains_byte
host-Lacks = refl

-- The one entry of HOST is replaced by the default host.
values-inject_env_one_example :
    values (codes "HOST") (inject_env bin base env_inputs) ≡ codes "127.0.0.1" ∷ []
unfolding text_eq
values-inject_env_one_example =
    values-inject_env_one bin base env_inputs (codes "HOST") (some (codes "h")) host-Lacks
      web_port-Lacks host_before

inject_env-hides_token_example :
    values (codes "ROUTEUP_TOKEN") (inject_env bin base env_inputs) ≡ []
inject_env-hides_token_example =
    inject_env-hides_token plain web_config bin base env_inputs web_config-valid refl
