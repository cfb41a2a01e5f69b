-- ===== src/Config/File.antt =====
-- internal/config/config.go: the configuration of one service, and the rules that it is held to.
pub mod Rules
use routeup.Base.{
  Text, ◌>>=◌, ◌>>◌, leb, ◌==◌, if◌then◌else◌, any, ℤ, pos, ltb_ℤ, eq_ℤ, Result, ok, err, fail_if,
  wrap, codes, text_eq, ℕ, Bool, true, false, not, ◌&&◌, ◌||◌, List, [], ◌∷◌,
}
use routeup.Strings.{Unicode, has_prefix, trim_space, contains_byte}
use routeup.Route.Name.{NameError, parse}
use routeup.Route.Target.{Target, TargetError, root, normalize_targets}
use routeup.Route.Pattern.{PatternError, normalize_path_patterns}

-- type CaptureConfig
pub record CaptureConfig : Type 0 where
  pub request : Bool
  pub response : Bool
  pub redact_headers : List Text

-- type ExposeConfig
pub record ExposeConfig : Type 0 where
  pub enabled : Bool
  pub paths : List Text

-- type Config
pub record Config : Type 0 where
  pub name : Text
  pub port : ℤ
  pub targets : List Target
  pub expose : ExposeConfig
  pub capture : CaptureConfig
  pub script : Text
  pub command : Text
  pub port_env_var : Text

-- Config{}
abbrev pub zero_config : Config
zero_config = record {
  name = [];
  port = pos 0;
  targets = [];
  expose = record { enabled = false; paths = [] };
  capture = record { request = false; response = false; redact_headers = [] };
  script = [];
  command = [];
  port_env_var = [];
}

pub data HeaderError : Type 0 where
  empty_header_name invalid_header_name : HeaderError

pub data ConfigError : Type 0 where
  invalid_name : NameError → ConfigError
  invalid_target : TargetError → ConfigError
  invalid_path : PatternError → ConfigError
  invalid_header : HeaderError → ConfigError
  port_out_of_range two_roots script_and_command bad_env_var reserved_env_var : ConfigError

abbrev letter : ℕ → Bool
letter b = leb b'A' b && leb b b'Z' || leb b'a' b && leb b b'z'

abbrev digit : ℕ → Bool
digit b = leb b'0' b && leb b b'9'

-- The bytes of isHeaderTokenByte that are no letters and no digits.
abbrev token_marks : Text
token_marks = codes "!#$%&'*+-.^_`|~"

-- func isHeaderTokenByte
unfoldable pub is_header_token_byte : ℕ → Bool
is_header_token_byte b = if letter b || digit b then true else contains_byte b token_marks

-- func validHeaderName
unfoldable pub valid_header_name : Text → Bool
unfolding is_header_token_byte
valid_header_name [] = true
valid_header_name (b ∷ name) =
    if not (is_header_token_byte b) then false else valid_header_name name

-- func validateRedactHeaders
unfoldable pub validate_redact_headers : Unicode → List Text → Result HeaderError (Unit {0})
unfolding valid_header_name
validate_redact_headers u [] = ok tt
validate_redact_headers u (raw ∷ headers) =
    let rest = validate_redact_headers u headers in
    let name = trim_space u raw in
    if text_eq name []
    then err empty_header_name
    else if not (valid_header_name name)
    then err invalid_header_name
    else rest

-- The loop of validEnvVarName; the flag says that this is the first byte.
unfoldable pub env_var_bytes : Bool → Text → Bool
env_var_bytes first [] = true
env_var_bytes first (b ∷ name) =
    let rest = env_var_bytes false name in
    if letter b || (b == b'_' || not first && digit b) then rest else false

-- func validEnvVarName
unfoldable pub valid_env_var_name : Text → Bool
unfolding env_var_bytes
valid_env_var_name name = env_var_bytes true name && not (text_eq name [])

-- func reservedPortEnvVar
unfoldable pub reserved_port_env_var : Text → Bool
reserved_port_env_var name =
    if has_prefix (codes "ROUTEUP_") name
    then true
    else any (text_eq name) (codes "HOST" ∷ codes "PATH" ∷ codes "NODE_EXTRA_CA_CERTS" ∷ [])

-- The check of a name that is set.
abbrev pub check_name : Unicode → Text → Result ConfigError (Unit {0})
check_name u name =
    if text_eq name [] then ok tt else (wrap invalid_name (parse u name) >>= λ n. ok tt)

-- The test of Validate's loop.
abbrev pub has_root : List Target → Bool
has_root ts = any (λ t. text_eq t.path root) ts

-- func (c Config) Validate
unfoldable pub validate : Unicode → Config → Result ConfigError (Unit {0})
unfolding validate_redact_headers valid_env_var_name reserved_port_env_var
validate u c = do
  check_name u c.name
  fail_if (not (eq_ℤ c.port (pos 0)) && (ltb_ℤ c.port (pos 1) || ltb_ℤ (pos 65535) c.port))
      port_out_of_range
  targets ← wrap invalid_target (normalize_targets u c.targets)
  fail_if (not (eq_ℤ c.port (pos 0)) && has_root targets) two_roots
  paths ← wrap invalid_path (normalize_path_patterns u c.expose.paths)
  wrap invalid_header (validate_redact_headers u c.capture.redact_headers)
  fail_if (not (text_eq c.script []) && not (text_eq c.command [])) script_and_command
  fail_if (not (text_eq c.port_env_var []) && not (valid_env_var_name c.port_env_var)) bad_env_var
  fail_if (not (text_eq c.port_env_var (codes "PORT")) && reserved_port_env_var c.port_env_var)
      reserved_env_var
