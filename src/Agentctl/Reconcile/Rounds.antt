-- ===== src/Agentctl/Reconcile/Rounds.antt =====
-- What one round restores, and what it does not touch.
use routeup.Base.{
  Text, if◌then◌else◌, Bool-cases, Option-cases, text_eq, text_eq_iff, ◌≡◌, ◌⊎◌, inl, inr, true,
  false, not, ◌||◌, none, some, List, [], ◌∷◌, arith, ◌≢◌, ◌++◌, In, eq_ℤ, eq_ℤ_iff, refl, ◌&&◌,
  sym, ap, subst, Option,
}
use routeup.Agent.Registry.{Claim}
use routeup.Agent.Tunnels.Steps.{ExposeRequest, ExposureStatus}
use routeup.Agentctl.Reconcile.{
  register, unexpose, DesiredState, Status, Round, Call, has_exposure, round_status,
  restore_exposure, reconcile_status, reconcile_desired, expose,
}

-- The agent lists an exposure of the request's owner and route, on the given host if there is one.
abbrev pub Listed : ExposeRequest → Text → List ExposureStatus → Type 0
Listed req host es =
    (e : ExposureStatus) × In e es
    × (e.owner_pid ≡ req.owner_pid)
    × (e.route ≡ req.route)
    × ((host ≡ []) ⊎ (e.host ≡ host))

has_exposure-Listed :
    (es : List ExposureStatus) (req : ExposeRequest) (host : Text)
    → has_exposure es req host ≡ true
    → Listed req host es
unfolding has_exposure
has_exposure-Listed [] req host h = cc
has_exposure-Listed (e ∷ es) req host h =
    elim (Bool-cases (
      eq_ℤ e.owner_pid req.owner_pid
      && (text_eq e.route req.route && (text_eq host [] || text_eq e.host host)))) [
        | inl b ↦ (
          e,
          inl refl,
          ground (arith, b, eq_ℤ_iff e.owner_pid req.owner_pid),
          ground (arith, b, text_eq_iff e.route req.route),
          ground (arith, b, text_eq_iff host [], text_eq_iff e.host host),
        )
        | inr b ↦
            let (x, i, o, n, m) = has_exposure-Listed es req host (ground (arith, h, b)) in
            (x, inr i, o, n, m)
      ]

-- The registration of a round: that of the claim, if there is one, where the agent has restarted.
abbrev pub registration : DesiredState → Text → Status → List Call
registration d boot_id s =
    elim (if text_eq boot_id [] || not (text_eq s.boot_id boot_id) then d.claim else none) [
      | none ↦ []
      | some c ↦ register c ∷ []
    ]

-- The exposure is in place, on the host that is desired if there is one: either the agent lists it,
-- and no more calls are made; or Expose, called once and last, has returned this host.
abbrev pub InPlace : DesiredState → ExposeRequest → Round → Status → List Call → List Call → Type 0
InPlace d req r s before calls =
    (Listed req d.public_host s.exposures × (calls ≡ before))
    ⊎ ((host : Text) × (r.exposes ≡ some host)
        × ((d.public_host ≡ []) ⊎ (host ≡ d.public_host))
        × (calls ≡ before ++ expose req ∷ []))

restore_exposure-InPlace :
    (d : DesiredState) (req : ExposeRequest) (r : Round) (s : Status) (calls : List Call)
    → d.exposure ≡ some req
    → (restore_exposure d r s calls).exposure_failed ≡ false
    → InPlace d req r s calls (restore_exposure d r s calls).calls
unfolding restore_exposure
restore_exposure-InPlace d req r s calls e f =
    elim (Bool-cases (has_exposure s.exposures req d.public_host)) [
      | inl h ↦ inl (has_exposure-Listed s.exposures req d.public_host h, ground (arith, e, h))
      | inr h ↦ elim (Option-cases r.exposes) [
        | inl q ↦ absurd (ground (arith, f, e, h, q))
        | inr (host, q) ↦ inr (
          host,
          q,
          ground (arith, f, e, h, q, text_eq_iff d.public_host [], text_eq_iff host d.public_host),
          ground (arith, f, e, h, q),
        )
      ]
    ]

-- A round that gets a status of the agent, that can register, and that does not report a failure,
-- leaves the exposure in place: the agent lists it already, and the round makes no call but the
-- registration after a restart; or the round's last call is Expose with the desired request, which
-- returned a host, the desired one where there is one.
pub reconcile_desired-InPlace :
    (d : DesiredState) (req : ExposeRequest) (boot_id : Text) (r : Round) (s : Status)
    → d.exposure ≡ some req
    → r.done ≡ false
    → round_status r ≡ some s
    → r.registers ≡ true
    → (reconcile_desired d boot_id r).exposure_failed ≡ false
    → InPlace d req r s (registration d boot_id s) (reconcile_desired d boot_id r).calls
unfolding reconcile_desired reconcile_status
reconcile_desired-InPlace d req boot_id r s e n q g f =
    elim (Option-cases
      (if text_eq boot_id [] || not (text_eq s.boot_id boot_id) then d.claim else none)) [
        | inl c ↦
            rw (reconcile_desired, n, q, reconcile_status, c)
              (subst (λ b. InPlace d req r s b (restore_exposure d r s []).calls)
                (registered none c)
                (restore_exposure-InPlace d req r s [] e
                  (rw (reconcile_desired, n, q, reconcile_status, c) at f)))
        | inr (k, c) ↦
            rw (reconcile_desired, n, q, reconcile_status, c, g)
              (subst (λ b. InPlace d req r s b (restore_exposure d r s (register k ∷ [])).calls)
                (registered (some k) c)
                (restore_exposure-InPlace d req r s (register k ∷ []) e
                  (rw (reconcile_desired, n, q, reconcile_status, c, g) at f)))
      ]
  where
    registered :
        (o : Option Claim)
        → (if text_eq boot_id [] || not (text_eq s.boot_id boot_id) then d.claim else none) ≡ o
        → elim o [ none ↦ [] | some c ↦ register c ∷ [] ] ≡ registration d boot_id s
    registered o c =
        ap (λ (x : Option Claim). elim x [ none ↦ [] | some k ↦ register k ∷ [] ]) (sym c)

-- The two calls that a round makes where the agent exposes another host than the desired one.
abbrev pub replaced : ExposeRequest → Text → List Call
replaced req host =
    expose req
    ∷ unexpose (record { host = host; route = req.route; owner_pid = req.owner_pid })
    ∷ []

-- Where the exposure is missing and the agent exposes another host than the one that is desired, the
-- exposure is released at once, by the same owner and for the same route, and the round has failed.
pub restore_exposure-replaced :
    (d : DesiredState) (req : ExposeRequest) (host : Text) (r : Round) (s : Status)
    → (calls : List Call) → d.exposure ≡ some req
    → has_exposure s.exposures req d.public_host ≡ false
    → r.exposes ≡ some host
    → d.public_host ≢ []
    → host ≢ d.public_host
    → restore_exposure d r s calls
      ≡ record { boot_id = s.boot_id; exposure_failed = true; calls = calls ++ replaced req host }
unfolding restore_exposure
restore_exposure-replaced d req host r s calls e h q n m =
    ground (arith, e, h, q, text_eq_iff d.public_host [], text_eq_iff host d.public_host, n, m)
