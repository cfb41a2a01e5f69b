-- ===== src/Process/Env/Laws.antt =====
-- What a child finds in its environment.
use routeup.Base.{
  Text, if◌then◌else◌, pos, ltb_ℤ, codes, text_eq, ◌≡◌, refl, Bool, true, false, not, ◌&&◌, ◌||◌,
  Option, some, List, [], ◌∷◌, arith, text_eq_iff, ok, ◌∙◌, none, Bool-cases, sym, ◌≢◌, inl, inr,
  ◌++◌,
}
use routeup.Strings.{contains_byte, cut_prefix, has_prefix}
use routeup.Strings.Laws.{Lacks}
use routeup.Strings.{Unicode}
use routeup.Config.File.Rules.{Obeys, validate-Obeys}
use routeup.Config.File.{env_var_bytes, Config, validate, valid_env_var_name, reserved_port_env_var}
use routeup.Process.Env.{
  EnvInputs, itoa, default_host, with_ca_cert, upsert, with_port, with_urls, without_env, path_key,
  with_bin, inject_env,
}
use routeup.Process.Env.Entries.{
  set_first, values, values-upsert, values-without_env, prepended, values-prepend_path,
}

-- A variable's name has no equals sign.
env_var_bytes-Lacks :
    (first : Bool) (name : Text) → env_var_bytes first name ≡ true → Lacks b'=' name
unfolding env_var_bytes contains_byte
env_var_bytes-Lacks first [] h = refl
env_var_bytes-Lacks first (b ∷ name) h = ground (arith, h, env_var_bytes-Lacks false name)

-- The values of each variable after InjectEnv's own, from those before.
abbrev pub port_set : EnvInputs → Text → Bool
port_set i key =
    ltb_ℤ (pos 0) i.port
    && (text_eq (codes "PORT") key || not (text_eq i.port_env_var []) && text_eq i.port_env_var key)

abbrev pub port_values : EnvInputs → Text → List Text → List Text
port_values i key vs = if port_set i key then set_first (itoa i.port) vs else vs

abbrev pub host_values : EnvInputs → Text → List Text → List Text
host_values i key vs = if text_eq (codes "HOST") key then set_first (default_host i.host) vs else vs

abbrev pub url_values : EnvInputs → Text → List Text → List Text
url_values i key vs =
    if not (text_eq i.local_url []) && text_eq (codes "ROUTEUP_URL") key
    then set_first (if text_eq i.public_url [] then i.local_url else i.public_url) vs
    else if not (text_eq i.local_url []) && text_eq (codes "ROUTEUP_LOCAL_URL") key
    then set_first i.local_url vs
    else vs

abbrev pub cert_values : EnvInputs → Text → List Text → List Text
cert_values i key vs =
    if not (text_eq i.ca_cert_path []) && text_eq (codes "NODE_EXTRA_CA_CERTS") key
    then set_first i.ca_cert_path vs
    else vs

abbrev pub injected : EnvInputs → Text → List Text → List Text
injected i key before =
    cert_values i key (url_values i key (host_values i key (port_values i key before)))

-- Two values set for one key in turn leave the later one.
set_first-set_first : (v w : Text) (ws : List Text) → set_first v (set_first w ws) ≡ set_first v ws
set_first-set_first v w [] = refl
set_first-set_first v w (x ∷ ws) = refl

module _ (i : EnvInputs) (key : Text) (k : Lacks b'=' key) where
  values-with_ca_cert :
      (env : List Text) → values key (with_ca_cert i env) ≡ cert_values i key (values key env)
  unfolding with_ca_cert contains_byte
  values-with_ca_cert env =
      ground (arith, values-upsert key (codes "NODE_EXTRA_CA_CERTS") i.ca_cert_path env k refl)

  values-with_urls :
      (env : List Text) → values key (with_urls i env) ≡ url_values i key (values key env)
  unfolding with_urls contains_byte
  values-with_urls env =
      let url = if text_eq i.public_url [] then i.local_url else i.public_url in
      let first = upsert env (codes "ROUTEUP_LOCAL_URL") i.local_url in
      ground (
        arith,
        values-upsert key (codes "ROUTEUP_LOCAL_URL") i.local_url env k refl,
        values-upsert key (codes "ROUTEUP_URL") url first k refl,
      )

  values-with_port :
      (env : List Text)
      → Lacks b'=' i.port_env_var
      → values key (with_port i env) ≡ port_values i key (values key env)
  unfolding with_port contains_byte
  values-with_port env l =
      let base = upsert env (codes "PORT") (itoa i.port) in
      ground (
        arith,
        values-upsert key (codes "PORT") (itoa i.port) env k refl,
        values-upsert key i.port_env_var (itoa i.port) base k l,
        text_eq_iff i.port_env_var (codes "PORT"),
        text_eq_iff i.port_env_var key,
        text_eq_iff (codes "PORT") key,
      )

-- The values of a variable before InjectEnv's own: the base's, without the token, and with the
-- directory of the project's binaries in front of the path.
abbrev pub inherited : (Text → Text) → List Text → EnvInputs → Text → List Text
inherited bin_dir base i key =
    if not (text_eq i.work_dir []) && text_eq path_key key
    then prepended (bin_dir i.work_dir) (values path_key base)
    else if text_eq (codes "ROUTEUP_TOKEN") key
    then []
    else values key base

token_and_path : text_eq (codes "ROUTEUP_TOKEN") path_key ≡ false
unfolding text_eq
token_and_path = refl

values-with_bin :
    (bin_dir : Text → Text) (base : List Text) (i : EnvInputs) (key : Text)
    → Lacks b'=' key
    → values key (with_bin bin_dir i (without_env base (codes "ROUTEUP_TOKEN")))
      ≡ inherited bin_dir base i key
unfolding with_bin contains_byte
values-with_bin bin_dir base i key k =
    let kept = without_env base (codes "ROUTEUP_TOKEN") in
    ground (
      arith,
      values-prepend_path key (bin_dir i.work_dir) kept k,
      values-without_env key (codes "ROUTEUP_TOKEN") base k refl,
      values-without_env path_key (codes "ROUTEUP_TOKEN") base refl refl,
      token_and_path,
    )

values-inject_env :
    (bin_dir : Text → Text) (base : List Text) (i : EnvInputs) (key : Text)
    → Lacks b'=' key
    → Lacks b'=' i.port_env_var
    → values key (inject_env bin_dir base i) ≡ injected i key (inherited bin_dir base i key)
unfolding inject_env contains_byte
values-inject_env bin_dir base i key k l =
    let env = with_bin bin_dir i (without_env base (codes "ROUTEUP_TOKEN")) in
    let hosted = upsert (with_port i env) (codes "HOST") (default_host i.host) in
    values-with_ca_cert i key k (with_urls i hosted)
    ∙ rw (values-with_urls i key k hosted) (
        rw (values-upsert key (codes "HOST") (default_host i.host) (with_port i env) k refl)
          (rw (values-with_port i key k env l) (rw (values-with_bin bin_dir base i key k) refl)))

-- The entries' values for a key that has at most one.
abbrev pub at_most_one : Option Text → List Text
at_most_one none = []
at_most_one (some v) = v ∷ []

-- The value of a key of which routeup sets none of its own, where the base gives it `before`.
abbrev pub given_inherited : (Text → Text) → EnvInputs → Text → Option Text → Option Text
given_inherited bin_dir i key before =
    if not (text_eq i.work_dir []) && text_eq path_key key
    then (elim before [
      | none ↦ some (bin_dir i.work_dir)
      | some [] ↦ some (bin_dir i.work_dir)
      | some (c ∷ path) ↦ some (bin_dir i.work_dir ++ b':' ∷ c ∷ path)
    ])
    else if text_eq (codes "ROUTEUP_TOKEN") key
    then none
    else before

-- The one value that InjectEnv gives a key, if it gives any, where the base gives it `before`.
abbrev pub given_value : (Text → Text) → EnvInputs → Text → Option Text → Option Text
given_value bin_dir i key before =
    if not (text_eq i.ca_cert_path []) && text_eq (codes "NODE_EXTRA_CA_CERTS") key
    then some i.ca_cert_path
    else if not (text_eq i.local_url []) && text_eq (codes "ROUTEUP_URL") key
    then some (if text_eq i.public_url [] then i.local_url else i.public_url)
    else if not (text_eq i.local_url []) && text_eq (codes "ROUTEUP_LOCAL_URL") key
    then some i.local_url
    else if text_eq (codes "HOST") key
    then some (default_host i.host)
    else if port_set i key
    then some (itoa i.port)
    else given_inherited bin_dir i key before

set_at_most_one : (v : Text) (o : Option Text) → set_first v (at_most_one o) ≡ at_most_one (some v)
set_at_most_one v none = refl
set_at_most_one v (some w) = refl

module _ (i : EnvInputs) (key : Text) where
  port_given :
      (vs : List Text) (o : Option Text)
      → vs ≡ at_most_one o
      → port_values i key vs ≡ at_most_one (if port_set i key then some (itoa i.port) else o)
  port_given vs o h = ground (arith, h, set_at_most_one (itoa i.port) o)

  host_given :
      (vs : List Text) (o : Option Text)
      → vs ≡ at_most_one o
      → host_values i key vs
        ≡ at_most_one (if text_eq (codes "HOST") key then some (default_host i.host) else o)
  host_given vs o h = ground (arith, h, set_at_most_one (default_host i.host) o)

  url_given :
      (vs : List Text) (o : Option Text)
      → vs ≡ at_most_one o
      → url_values i key vs
        ≡ at_most_one (
            if not (text_eq i.local_url []) && text_eq (codes "ROUTEUP_URL") key
            then some (if text_eq i.public_url [] then i.local_url else i.public_url)
            else if not (text_eq i.local_url []) && text_eq (codes "ROUTEUP_LOCAL_URL") key
            then some i.local_url
            else o)
  url_given vs o h =
      let url = if text_eq i.public_url [] then i.local_url else i.public_url in
      ground (arith, h, set_at_most_one url o, set_at_most_one i.local_url o)

  cert_given :
      (vs : List Text) (o : Option Text)
      → vs ≡ at_most_one o
      → cert_values i key vs
        ≡ at_most_one (
            if not (text_eq i.ca_cert_path []) && text_eq (codes "NODE_EXTRA_CA_CERTS") key
            then some i.ca_cert_path
            else o)
  cert_given vs o h = ground (arith, h, set_at_most_one i.ca_cert_path o)

  inherited_given :
      (bin_dir : Text → Text) (base : List Text) (o : Option Text)
      → values key base ≡ at_most_one o
      → inherited bin_dir base i key ≡ at_most_one (given_inherited bin_dir i key o)
  inherited_given bin_dir base none h = ground (arith, h, text_eq_iff path_key key)
  inherited_given bin_dir base (some []) h = ground (arith, h, text_eq_iff path_key key)
  inherited_given bin_dir base (some (c ∷ v)) h = ground (arith, h, text_eq_iff path_key key)

-- Where the base has at most one entry for a key, as the result of os.Environ has, so has the
-- environment that InjectEnv makes, and its value is the one that routeup sets for the key, where it
-- sets one. Otherwise it is the base's, except that the token's is left out, and that the path's has
-- the directory of the project's binaries in front, where a project's directory is given. The key and
-- the variable for the port have no equals signs.
pub values-inject_env_one :
    (bin_dir : Text → Text) (base : List Text) (i : EnvInputs) (key : Text) (before : Option Text)
    → Lacks b'=' key
    → Lacks b'=' i.port_env_var
    → values key base ≡ at_most_one before
    → values key (inject_env bin_dir base i) ≡ at_most_one (given_value bin_dir i key before)
values-inject_env_one bin_dir base i key before k l h =
    values-inject_env bin_dir base i key k l
    ∙ cert_given i key _ _ (
        url_given i key _ _ (
          host_given i key _ _
            (port_given i key _ _ (inherited_given i key bin_dir base before h))))

abbrev token_key : Text
token_key = codes "ROUTEUP_TOKEN"

port_env_var-Lacks : (u : Unicode) (c : Config) → Obeys u c → Lacks b'=' c.port_env_var
unfolding valid_env_var_name contains_byte
port_env_var-Lacks u c o = elim o.env_var [
  | inl e ↦ rw e refl
  | inr v ↦ env_var_bytes-Lacks true c.port_env_var (ground (arith, v))
]

token_reserved : (name : Text) → name ≡ token_key → reserved_port_env_var name ≡ true
unfolding reserved_port_env_var has_prefix cut_prefix
token_reserved name e = rw e refl

token_not_port : codes "PORT" ≢ token_key
token_not_port e = cc

port_not_token : (u : Unicode) (c : Config) → Obeys u c → text_eq c.port_env_var token_key ≡ false
port_not_token u c o = elim (Bool-cases (text_eq c.port_env_var token_key)) [
  | inr e ↦ e
  | inl e ↦
      let same = (text_eq_iff c.port_env_var token_key).0 e in
      elim o.free [
        | inl p ↦ absurd (token_not_port (sym p ∙ same))
        | inr r ↦ absurd (ground (arith, r, token_reserved c.port_env_var same))
      ]
]

-- Where no variable for the port is the token's, InjectEnv sets no token.
not_injected :
    (bin_dir : Text → Text) (base : List Text) (i : EnvInputs)
    → text_eq i.port_env_var token_key ≡ false
    → injected i token_key (inherited bin_dir base i token_key) ≡ []
unfolding text_eq
not_injected bin_dir base i n = ground (arith, n)

-- Where the variable for the port is the one of a configuration that Validate accepts, no entry of the
-- child's environment gives the token, whatever the base.
pub inject_env-hides_token :
    (u : Unicode) (c : Config) (bin_dir : Text → Text) (base : List Text) (i : EnvInputs)
    → validate u c ≡ ok tt
    → i.port_env_var ≡ c.port_env_var
    → values (codes "ROUTEUP_TOKEN") (inject_env bin_dir base i) ≡ []
inject_env-hides_token u c bin_dir base i v e =
    let o = validate-Obeys u c v in
    values-inject_env bin_dir base i token_key (unfold contains_byte in refl)
      (rw e (port_env_var-Lacks u c o))
    ∙ not_injected bin_dir base i (rw e (port_not_token u c o))
