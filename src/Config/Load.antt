-- ===== src/Config/Load.antt =====
-- internal/config/packagejson.go, internal/config/discovery.go and LoadRouteupJSON: where the
-- configuration comes from. Reading a file, decoding JSON and joining paths are parameters.
pub mod Laws
use routeup.Base.{
  Text, ◌>>=◌, ◌>>◌, ◌==◌, if◌then◌else◌, Result, ok, err, fail_if, wrap, codes, text_eq, Map,
  lookup, Bool, true, not, Option, none, some, [], ◌∷◌,
}
use routeup.Strings.{Unicode, has_prefix, trim_space}
use routeup.Config.File.{Config, zero_config, ConfigError, validate}

pub data FileRead : Type 0 where
  missing unreadable : FileRead
  contents : Text → FileRead

-- type pkgJSON
pub record PkgJson : Type 0 where
  pub routeup : Text
  pub scripts : Map Text

pub data LoadError : Type 0 where
  not_exist read_failed parse_failed misplaced_script misplaced_command unknown_script bad_dir :
      LoadError
  invalid : ConfigError → LoadError

-- Packages os, encoding/json and path/filepath.
pub record Files : Type 0 where
  pub read_file : Text → FileRead
  pub decode_config : Text → Option Config
  pub decode_package : Text → Option PkgJson
  pub abs : Text → Option Text
  pub join_path : Text → Text → Text

abbrev pub or_fail : {E A : Type 0} → E → Option A → Result E A
or_fail e none = err e
or_fail e (some a) = ok a

-- func stripScope
unfoldable pub after_slash : Text → Option Text
after_slash [] = none
after_slash (c ∷ s) = if c == b'/' then some s else after_slash s

unfoldable pub strip_scope : Text → Text
unfolding after_slash
strip_scope name =
    if not (has_prefix (codes "@") name)
    then name
    else elim (after_slash name) [ none ↦ name | some rest ↦ rest ]

-- func isAbsentRouteupBlock
unfoldable pub is_absent_routeup_block : Unicode → Text → Bool
is_absent_routeup_block u [] = true
is_absent_routeup_block u (c ∷ raw) = text_eq (trim_space u (c ∷ raw)) (codes "null")

abbrev pub read_text : FileRead → Result LoadError Text
read_text missing = err not_exist
read_text unreadable = err read_failed
read_text (contents data_read) = ok data_read

-- The command that the script of a package.json stands for.
unfoldable pub with_command : Config → Map Text → Result LoadError Config
with_command c scripts = if text_eq c.script [] then ok c else elim (lookup c.script scripts) [
  | none ↦ err unknown_script
  | some command ↦ ok (record c { command = command; script = [] })
]

module _ (u : Unicode) (files : Files) where
  -- func LoadRouteupJSON
  unfoldable pub load_routeup_json : Text → Result LoadError Config
  load_routeup_json path = do
    bytes ← read_text (files.read_file path)
    c ← or_fail parse_failed (files.decode_config bytes)
    fail_if (not (text_eq c.script [])) misplaced_script
    wrap invalid (validate u c)
    ok c

  -- LoadPackageJSON, of a block that is there
  unfoldable pub load_block : PkgJson → Result LoadError Config
  unfolding strip_scope with_command
  load_block pkg = do
    decoded ← or_fail parse_failed (files.decode_config pkg.routeup)
    let c = record decoded { name = strip_scope decoded.name }
    fail_if (not (text_eq c.command [])) misplaced_command
    wrap invalid (validate u c)
    with_command c pkg.scripts

  -- func LoadPackageJSON, without the zero Config where there is no block
  unfoldable pub load_package_json : Text → Result LoadError (Option Config)
  unfolding load_block is_absent_routeup_block
  load_package_json path = do
    bytes ← read_text (files.read_file path)
    pkg ← or_fail parse_failed (files.decode_package bytes)
    if is_absent_routeup_block u pkg.routeup then ok none else (load_block pkg >>= λ c. ok (some c))

-- type Source of a configuration
pub data Source : Type 0 where
  source_none source_routeup_json source_package_json : Source

-- type Discovered
pub record Discovered : Type 0 where
  pub config : Config
  pub path : Text
  pub source : Source

abbrev pub nothing_here : Discovered
nothing_here = record { config = zero_config; path = []; source = source_none }

-- Discover's use of package.json.
abbrev pub from_package : Text → Result LoadError (Option Config) → Result LoadError Discovered
from_package path (ok none) = ok nothing_here
from_package path (ok (some c)) =
    ok (record { config = c; path = path; source = source_package_json })
from_package path (err not_exist) = ok nothing_here
from_package path (err e) = err e

-- Discover's use of routeup.json, with what package.json gives.
abbrev pub from_files :
    Text → Result LoadError Config → Result LoadError Discovered → Result LoadError Discovered
from_files path (ok c) fallback =
    ok (record { config = c; path = path; source = source_routeup_json })
from_files path (err not_exist) fallback = fallback
from_files path (err e) fallback = err e

-- func Discover
unfoldable pub discover : Unicode → Files → Text → Result LoadError Discovered
unfolding load_routeup_json load_package_json
discover u files start_dir = do
  dir ← or_fail bad_dir (files.abs start_dir)
  let r_path = files.join_path dir (codes "routeup.json")
  let p_path = files.join_path dir (codes "package.json")
  from_files r_path (load_routeup_json u files r_path)
      (from_package p_path (load_package_json u files p_path))
