-- ===== src/Config/Resolve.antt =====
-- internal/config/resolve.go: the name and the targets of a command, from its arguments, its
-- environment, the configuration file and the working directory. The environment gives the empty text for a name that is not set, as a nil
-- function does.
pub mod Precedence
pub mod Laws
use routeup.Base.{
  Text, leb, ◌==◌, if◌then◌else◌, ℤ, pos, negsuc, eq_ℤ, Result, ok, err, ◌>>=◌, ◌>>◌, fail_if, wrap,
  codes, text_eq, ℕ, zero, suc, ◌+◌, ◌-◌, ◌*◌, Bool, true, false, not, ◌&&◌, Option, none, some,
  List, [], ◌∷◌, ◌++◌,
}
use routeup.Strings.{Unicode, trim_space}
use routeup.Config.File.{Config}
use routeup.Route.Name.{Name, NameError, parse}
use routeup.Route.Target.{
  Target, TargetError, normalize_target, root, normalize_targets, primary_port,
}

-- type Inputs
pub record Inputs : Type 0 where
  pub positional_name : Text
  pub port_flag : ℤ
  pub target_flags : List Target
  pub env : Text → Text
  pub file : Config
  pub dir_name : Text

-- type Resolved
pub record Resolved : Type 0 where
  pub route : Name
  pub port : ℤ
  pub targets : List Target

pub data ResolveError : Type 0 where
  no_name no_targets invalid_port : ResolveError
  invalid_name : NameError → ResolveError
  invalid_target : TargetError → ResolveError

-- The decimal number that a text of digits stands for, after the digits read so far.
unfoldable pub digits_from : ℕ → Text → Option ℕ
digits_from n [] = some n
digits_from n (c ∷ s) =
    let rest = digits_from (n * 10 + (c - b'0')) s in
    if leb b'0' c && leb c b'9' then rest else none

abbrev pub max_int : ℕ
max_int = 9223372036854775807

abbrev pub at_most : ℕ → Option ℕ → Option ℕ
at_most bound none = none
at_most bound (some n) = if leb n bound then some n else none

abbrev pub negated : ℕ → ℤ
negated zero = pos 0
negated (suc n) = negsuc n

abbrev pub as_pos : Option ℕ → Option ℤ
as_pos none = none
as_pos (some n) = some (pos n)

abbrev pub as_negated : Option ℕ → Option ℤ
as_negated none = none
as_negated (some n) = some (negated n)

-- A nonempty run of digits.
abbrev pub digits : Text → Option ℕ
digits [] = none
digits (c ∷ s) = digits_from 0 (c ∷ s)

-- strconv.Atoi: an optional sign and digits, within the range of a 64-bit int
unfoldable pub atoi : Text → Option ℤ
unfolding digits_from
atoi [] = none
atoi (c ∷ s) =
    if c == b'-'
    then as_negated (at_most (max_int + 1) (digits s))
    else if c == b'+'
    then as_pos (at_most max_int (digits s))
    else as_pos (at_most max_int (digits (c ∷ s)))

abbrev pub with_head :
    Target → Result ResolveError (Option (List Target)) → Result ResolveError (Option (List Target))
with_head t (err e) = err e
with_head t (ok none) = ok none
with_head t (ok (some ts)) = ok (some (t ∷ ts))

-- setTarget's loop: the targets with one replaced, or none where no path is the same.
unfoldable pub replace_target :
    Unicode → Target → List Target → Result ResolveError (Option (List Target))
replace_target u normalized [] = ok none
replace_target u normalized (t ∷ ts) = do
  existing ← wrap invalid_target (normalize_target u t)
  let rest = with_head t (replace_target u normalized ts)
  if text_eq existing.path normalized.path then ok (some (normalized ∷ ts)) else rest

abbrev pub replaced_or_added : Target → List Target → Option (List Target) → List Target
replaced_or_added t ts none = ts ++ t ∷ []
replaced_or_added t ts (some ts') = ts'

-- func setTarget
unfoldable pub set_target : Unicode → List Target → Target → Result ResolveError (List Target)
unfolding replace_target
set_target u ts t = do
  normalized ← wrap invalid_target (normalize_target u t)
  replaced ← replace_target u normalized ts
  ok (replaced_or_added normalized ts replaced)

-- resolveTargets's loops over given targets.
unfoldable pub set_all : Unicode → List Target → List Target → Result ResolveError (List Target)
unfolding set_target
set_all u ts [] = ok ts
set_all u ts (t ∷ rest) = do ts' ← set_target u ts t; set_all u ts' rest

abbrev pub at_root : ℤ → Target
at_root port = record { path = root; port = port }

-- A port that is given unless it is 0.
abbrev pub set_port : Unicode → List Target → ℤ → Result ResolveError (List Target)
set_port u ts port = if eq_ℤ port (pos 0) then ok ts else set_target u ts (at_root port)

-- resolveTargets's reading of ROUTEUP_PORT, where the port 0 is set as any other.
abbrev pub set_env : Unicode → List Target → Text → Result ResolveError (List Target)
set_env u ts raw = if text_eq raw [] then ok ts else elim (atoi (trim_space u raw)) [
  | none ↦ err invalid_port
  | some n ↦ set_target u ts (at_root n)
]

abbrev pub is_empty_list : List Target → Bool
is_empty_list [] = true
is_empty_list (t ∷ ts) = false

-- func resolveTargets
unfoldable pub resolve_targets : Unicode → Inputs → Result ResolveError (List Target)
unfolding set_all
resolve_targets u i = do
  from_port ← set_port u [] i.file.port
  from_file ← set_all u from_port i.file.targets
  from_env ← set_env u from_file (i.env (codes "ROUTEUP_PORT"))
  from_flag ← set_port u from_env i.port_flag
  ts ← set_all u from_flag i.target_flags
  fail_if (is_empty_list ts) no_targets
  wrap invalid_target (normalize_targets u ts)

-- func resolveName
unfoldable pub resolve_name : Unicode → Inputs → Result ResolveError Text
resolve_name u i =
    if not (text_eq i.positional_name [])
    then ok i.positional_name
    else if not (text_eq (trim_space u (i.env (codes "ROUTEUP_NAME"))) [])
    then ok (trim_space u (i.env (codes "ROUTEUP_NAME")))
    else if not (text_eq i.file.name [])
    then ok i.file.name
    else if not (text_eq i.dir_name [])
    then ok i.dir_name
    else err no_name

-- func ResolveName
unfoldable pub resolve_route : Unicode → Inputs → Result ResolveError Name
unfolding resolve_name
resolve_route u i = do name ← resolve_name u i; wrap invalid_name (parse u name)

-- func Resolve
unfoldable pub resolve : Unicode → Inputs → Result ResolveError Resolved
unfolding resolve_targets resolve_route
resolve u i = do
  targets ← resolve_targets u i
  parsed ← resolve_route u i
  ok (record { route = parsed; port = primary_port targets; targets = targets })
