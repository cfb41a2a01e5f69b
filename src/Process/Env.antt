-- ===== src/Process/Env.antt =====
-- internal/process/env.go: the environment of a child. An environment is a list of entries, a key, an
-- equals sign and a value; its slice is changed in place, which no one else sees. The path of the
-- directory of a project's binaries, filepath.Join's, is a parameter.
pub mod Entries
pub mod Laws
use routeup.Base.{
  Text, ltb, if◌then◌else◌, ℤ, pos, negsuc, ltb_ℤ, codes, text_eq, ℕ, zero, suc, ◌+◌, ◌/◌, ◌%◌, not,
  ◌&&◌, none, some, List, [], ◌∷◌, ◌++◌,
}
use routeup.Strings.{has_prefix, cut_prefix}

-- type EnvInputs
pub record EnvInputs : Type 0 where
  pub port : ℤ
  pub port_env_var : Text
  pub host : Text
  pub local_url : Text
  pub public_url : Text
  pub ca_cert_path : Text
  pub work_dir : Text

-- The last digits of a number, at most so many; a Go int has at most 19.
unfoldable pub digits : ℕ → ℕ → Text
digits zero n = []
digits (suc fuel) n =
    let rest = digits fuel (n / 10) in
    if ltb n 10 then (n + b'0') ∷ [] else rest ++ (n % 10 + b'0') ∷ []

-- strconv.Itoa
unfoldable pub itoa : ℤ → Text
unfolding digits
itoa (pos n) = digits 20 n
itoa (negsuc n) = b'-' ∷ digits 20 (suc n)

-- A key and its equals sign.
abbrev pub key_prefix : Text → Text
key_prefix key = key ++ b'=' ∷ []

-- func withoutEnv
unfoldable pub without_env : List Text → Text → List Text
without_env [] key = []
without_env (entry ∷ env) key =
    let rest = without_env env key in
    if has_prefix (key_prefix key) entry then rest else entry ∷ rest

-- func upsert
unfoldable pub upsert : List Text → Text → Text → List Text
upsert [] key val = (key_prefix key ++ val) ∷ []
upsert (kv ∷ env) key val =
    let rest = upsert env key val in
    if has_prefix (key_prefix key) kv then (key_prefix key ++ val) ∷ env else kv ∷ rest

abbrev pub path_key : Text
path_key = codes "PATH"

-- func prependPath
unfoldable pub prepend_path : List Text → Text → List Text
prepend_path [] dir = (key_prefix path_key ++ dir) ∷ []
prepend_path (kv ∷ env) dir =
    let rest = prepend_path env dir in
    elim (cut_prefix (key_prefix path_key) kv) [
      | none ↦ kv ∷ rest
      | some [] ↦ (key_prefix path_key ++ dir) ∷ env
      | some (c ∷ existing) ↦ (key_prefix path_key ++ dir ++ b':' ∷ c ∷ existing) ∷ env
    ]

abbrev pub default_host : Text → Text
default_host host = if text_eq host [] then codes "127.0.0.1" else host

-- The steps of InjectEnv, in order.
unfoldable pub with_port : EnvInputs → List Text → List Text
unfolding upsert itoa
with_port i env =
    let base = upsert env (codes "PORT") (itoa i.port) in
    if not (ltb_ℤ (pos 0) i.port)
    then env
    else if not (text_eq i.port_env_var []) && not (text_eq i.port_env_var (codes "PORT"))
    then upsert base i.port_env_var (itoa i.port)
    else base

unfoldable pub with_urls : EnvInputs → List Text → List Text
unfolding upsert
with_urls i env =
    let routeup_url = if text_eq i.public_url [] then i.local_url else i.public_url in
    if text_eq i.local_url []
    then env
    else upsert (upsert env (codes "ROUTEUP_LOCAL_URL") i.local_url) (codes "ROUTEUP_URL")
        routeup_url

unfoldable pub with_ca_cert : EnvInputs → List Text → List Text
unfolding upsert
with_ca_cert i env =
    if text_eq i.ca_cert_path []
    then env
    else upsert env (codes "NODE_EXTRA_CA_CERTS") i.ca_cert_path

unfoldable pub with_bin : (Text → Text) → EnvInputs → List Text → List Text
unfolding prepend_path
with_bin bin_dir i env =
    if text_eq i.work_dir [] then env else prepend_path env (bin_dir i.work_dir)

-- func InjectEnv
unfoldable pub inject_env : (Text → Text) → List Text → EnvInputs → List Text
unfolding without_env with_bin with_port with_urls with_ca_cert
inject_env bin_dir base i =
    let env = with_bin bin_dir i (without_env base (codes "ROUTEUP_TOKEN")) in
    with_ca_cert i (with_urls i (upsert (with_port i env) (codes "HOST") (default_host i.host)))
