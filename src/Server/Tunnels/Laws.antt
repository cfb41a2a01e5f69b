-- ===== src/Server/Tunnels/Laws.antt =====
-- The session that serves a host while sessions come and go.
use routeup.Base.{
  Text, All, text_eq_iff, text_eq_refl, lookup, lookup-insert, ℕ, ◌≡◌, ◌≢◌, ◌⊎◌, some, List, [],
  ◌∷◌, ◌++◌, arith, Bool-cases, text_eq, lookup-delete, sym, subst, inl, inr,
}
use routeup.Server.Broker.{RouteLease, release}
use routeup.Server.Tunnels.{TunnelRegistry, run, register, Event, opened, closed, step, is_session}

module _ {B : Type 0} (broker_release : RouteLease → B → B) where
  -- An event that neither opens another session for the host nor closes the given one.
  abbrev pub IsOther : Text → ℕ → Event broker_release → Type 0
  IsOther host session (opened lease other) = lease.host ≢ host
  IsOther host session (closed lease other) = (lease.host ≢ host) ⊎ (other ≢ session)

  step-IsOther :
      (host : Text) (session : ℕ) (e : Event broker_release) (reg : TunnelRegistry broker_release)
      → IsOther host session e
      → lookup host reg.routes ≡ some session
      → lookup host (step broker_release e reg).routes ≡ some session
  unfolding step release register
  step-IsOther host session (opened lease other) reg o h =
      ground (arith, h, lookup-insert lease.host host other reg.routes, text_eq_iff lease.host host)
  step-IsOther host session (closed lease other) reg o h =
      elim (Bool-cases (is_session other (lookup lease.host reg.routes))) [
        | inr stale ↦ ground (arith, stale, h)
        | inl current ↦ elim o [
          | inl elsewhere ↦ ground (
            arith,
            current,
            h,
            elsewhere,
            lookup-delete lease.host host reg.routes,
            text_eq_iff lease.host host,
          )
          | inr newer ↦ elim (Bool-cases (text_eq lease.host host)) [
            | inr elsewhere ↦
                ground (arith, current, h, elsewhere, lookup-delete lease.host host reg.routes)
            | inl here ↦
                let found : lookup lease.host reg.routes ≡ some session =
                  subst (λ k. lookup k reg.routes ≡ some session)
                    (sym ((text_eq_iff lease.host host).0 here)) h in
                absurd (ground (arith, current, found, newer))
          ]
        ]
      ]

  -- Once a session has been opened for a host, it serves the host through any later events but its
  -- own end and a newer session for the host: the late end of an older session changes nothing.
  pub run-serves :
      (lease : RouteLease) (session : ℕ) (later earlier : List (Event broker_release))
      (reg : TunnelRegistry broker_release)
      → All (IsOther lease.host session) later
      → lookup lease.host (run broker_release (later ++ opened lease session ∷ earlier) reg).routes
        ≡ some session
  unfolding run step register
  run-serves lease session [] earlier reg o = ground (
    arith,
    lookup-insert lease.host lease.host session (run broker_release earlier reg).routes,
    text_eq_refl lease.host,
  )
  run-serves lease session (e ∷ later) earlier reg (o, os) =
      step-IsOther lease.host session e
        (run broker_release (later ++ opened lease session ∷ earlier) reg) o
        (run-serves lease session later earlier reg os)
