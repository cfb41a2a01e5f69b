-- ===== src/Config/File/Rules.antt =====
-- What a configuration that Validate accepts obeys.
use routeup.Base.{
  Text, Bool-cases, All, ℤ, pos, negsuc, ltb_ℤ, eq_ℤ, eq_ℤ_iff, ok, Result-cases, codes, text_eq,
  text_eq_iff, ℕ, zero, suc, ◌≤◌, ◌≡◌, refl, ◌≢◌, ◌⊎◌, inl, inr, true, false, not, ◌&&◌, ◌||◌, List,
  [], ◌∷◌, arith,
}
use routeup.Strings.{Unicode, trim_space}
use routeup.Route.Name.{Name, parse}
use routeup.Route.Target.{Target, normalize_targets}
use routeup.Config.File.{
  Config, valid_header_name, validate_redact_headers, valid_env_var_name, reserved_port_env_var,
  check_name, has_root, validate,
}

-- A header that may be redacted: without its blanks it is a token that is not empty.
abbrev pub IsHeader : Unicode → Text → Type 0
IsHeader u raw = (trim_space u raw ≢ []) × (valid_header_name (trim_space u raw) ≡ true)

validate_redact_headers-IsHeader :
    (u : Unicode) (headers : List Text)
    → validate_redact_headers u headers ≡ ok tt
    → All (IsHeader u) headers
unfolding validate_redact_headers
validate_redact_headers-IsHeader u [] h = tt
validate_redact_headers-IsHeader u (raw ∷ headers) h =
    elim (Bool-cases (text_eq (trim_space u raw) [])) [
      | inl e ↦ absurd (ground (arith, h, e))
      | inr e ↦ elim (Bool-cases (valid_header_name (trim_space u raw))) [
        | inr v ↦ absurd (ground (arith, h, e, v))
        | inl v ↦ (
          (ground (arith, e, text_eq_iff (trim_space u raw) []), v),
          validate_redact_headers-IsHeader u headers (ground (arith, h, e, v)),
        )
      ]
    ]

-- The rules of Validate.
pub record Obeys (u : Unicode) (c : Config) : Type 0 where
  pub name : (c.name ≡ []) ⊎ ((n : Name) × (parse u c.name ≡ ok n))
  pub targets : List Target
  pub normalized : normalize_targets u c.targets ≡ ok targets
  pub one_root : (c.port ≡ pos 0) ⊎ (has_root targets ≡ false)
  pub port : (c.port ≡ pos 0) ⊎ ((n : ℕ) × (c.port ≡ pos n) × (1 ≤ n) × (n ≤ 65535))
  pub headers : All (IsHeader u) c.capture.redact_headers
  pub one_command : (c.script ≡ []) ⊎ (c.command ≡ [])
  pub env_var : (c.port_env_var ≡ []) ⊎ (valid_env_var_name c.port_env_var ≡ true)
  pub free : (c.port_env_var ≡ codes "PORT") ⊎ (reserved_port_env_var c.port_env_var ≡ false)

check_name-parse :
    (u : Unicode) (name : Text)
    → check_name u name ≡ ok tt
    → (name ≡ []) ⊎ ((n : Name) × (parse u name ≡ ok n))
check_name-parse u name h = elim (Bool-cases (text_eq name [])) [
  | inl e ↦ inl ((text_eq_iff name []).0 e)
  | inr e ↦ elim (Result-cases (parse u name)) [
    | inl (n, q) ↦ inr (n, q)
    | inr (why, q) ↦ absurd (ground (arith, h, e, q))
  ]
]

port_range :
    (p : ℤ)
    → (not (eq_ℤ p (pos 0)) && (ltb_ℤ p (pos 1) || ltb_ℤ (pos 65535) p)) ≡ false
    → (p ≡ pos 0) ⊎ ((n : ℕ) × (p ≡ pos n) × (1 ≤ n) × (n ≤ 65535))
port_range (pos zero) h = inl refl
port_range (pos (suc n)) h = inr (suc n, refl, omega arith, ground (arith, h))
port_range (negsuc n) h = absurd (ground (arith, h))

-- A configuration that Validate accepts obeys its rules: the name is blank or one that Parse takes;
-- the targets have a normal form, which has no root beside a port; a port is between 1 and 65535;
-- each redacted header is a header's name; not both a script and a command are set; and the variable
-- for the port is blank or a variable's name, and PORT or none that is reserved.
pub validate-Obeys : (u : Unicode) (c : Config) → validate u c ≡ ok tt → Obeys u c
unfolding validate
validate-Obeys u c h = elim (Result-cases (normalize_targets u c.targets)) [
  | inr (why, q) ↦ absurd (ground (arith, h, q))
  | inl (ts, q) ↦ record {
    name = check_name-parse u c.name (ground (arith, h));
    targets = ts;
    normalized = q;
    one_root = ground (arith, h, q, eq_ℤ_iff c.port (pos 0));
    port = port_range c.port (ground (arith, h));
    headers = validate_redact_headers-IsHeader u c.capture.redact_headers (ground (arith, h));
    one_command = ground (arith, h, text_eq_iff c.script [], text_eq_iff c.command []);
    env_var = ground (arith, h, text_eq_iff c.port_env_var []);
    free = ground (arith, h, text_eq_iff c.port_env_var (codes "PORT"));
  }
]
