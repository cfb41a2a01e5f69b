-- ===== src/Agent/Api/Exposing.antt =====
-- How an exposure's request ends: with a host that is served, or with an error and a cancelled session.
use mathlib.Core.Option
use routeup.Base.{
  Text, ◌==◌, get_elem?, text_eq, lookup, ℕ, ◌≡◌, ◌≢◌, ◌⊎◌, true, false, none, some, [], ==_iff,
  Bool-cases, ok, err, Result-cases, text_eq_iff, text_eq_refl, insert, lookup-insert, refl, ◌∙◌,
  inl, inr, Option, arith, Option-cases, Result, ap, subst,
}
use routeup.Agent.Tunnels.{Manager, Session, change, cancel_session, store_found, store}
use routeup.Agent.Tunnels.Claims.{update_session-at}
use routeup.Agent.Tunnels.Steps.{
  buffer_of, ExposeError, bad_tunnel, no_host, store_or_cancel, receive_grant, give_up,
}
use routeup.Agent.Api.{
  Agent, Reply, json_error, exposed, ExposeEvent, grant_received, tunnel_ended, request_ended,
  end_expose, expose_reply,
}

-- The tunnels after an exposure that was given up: its session, if it is known, is cancelled, every
-- other session is as it was, and so are the hosts and the claims.
pub record GivenUp (i : ℕ) (m after : Manager) : Type 0 where
  pub hosts : after.active ≡ m.active
  pub claims : after.claims ≡ m.claims
  pub others : (j : ℕ) → (i == j) ≡ false → get_elem? after.sessions j ≡ get_elem? m.sessions j
  pub cancelled : (s : Session) → get_elem? after.sessions i ≡ some s → s.cancelled ≡ true

-- The tunnels after an exposure that succeeded: the host that was granted is the session's, no other
-- host has changed, and the host was not another session's.
pub record Established (i : ℕ) (host : Text) (m after : Manager) : Type 0 where
  pub granted : buffer_of (get_elem? m.sessions i) ≡ some host
  pub named : host ≢ []
  pub free : (lookup host m.active ≡ none) ⊎ (lookup host m.active ≡ some i)
  pub serves : lookup host after.active ≡ some i
  pub hosts : (h : Text) → text_eq host h ≡ false → lookup h after.active ≡ lookup h m.active
  pub claims : after.claims ≡ m.claims

cancelled-GivenUp : (i : ℕ) (m : Manager) → GivenUp i m (change i cancel_session m)
cancelled-GivenUp i m = record {
  hosts = refl;
  claims = refl;
  others = λ j n. update_session-at i j cancel_session m.sessions ∙ rw n refl;
  cancelled = λ s e. ground (arith, e, update_session-at i i cancel_session m.sessions, ==_iff i i);
}

changed-GivenUp :
    (i : ℕ) (f : Session → Session) (m : Manager)
    → GivenUp i m (change i cancel_session (change i f m))
changed-GivenUp i f m =
    let v = cancelled-GivenUp i (change i f m) in
    record {
      hosts = refl;
      claims = refl;
      others = λ j n. v.others j n ∙ update_session-at i j f m.sessions ∙ rw n refl;
      cancelled = v.cancelled;
    }

-- What store does where it succeeds.
store-ok :
    (host : Text) (i : ℕ) (m after : Manager)
    → store host i m ≡ ok after
    → ((lookup host m.active ≡ none) ⊎ (lookup host m.active ≡ some i))
      × (after.active ≡ insert host i m.active)
      × (after.claims ≡ m.claims)
unfolding store store_found
store-ok host i m after h = elim (Option-cases (get_elem? m.sessions i)) [
  | inl q ↦ absurd (ground (arith, h, q))
  | inr (s, q) ↦ elim (Option-cases (lookup host m.active)) [
    | inl n ↦ (inl n, ground (arith, h, q, n), ground (arith, h, q, n))
    | inr (j, n) ↦ (
      inr (ground (arith, h, q, n, ==_iff j i)),
      ground (arith, h, q, n),
      ground (arith, h, q, n),
    )
  ]
]

-- The outcome of an exposure's request, once it has been started.
abbrev pub Ended : ℕ → Agent → Agent → Option Reply → Type 0
Ended i a after reply =
    ((reply ≡ none) × (after ≡ a) × (buffer_of (get_elem? a.tunnels.sessions i) ≡ none))
    ⊎ ((host : Text) × (reply ≡ some (exposed host)) × Established i host a.tunnels after.tunnels)
    ⊎ ((reply ≡ some (json_error 502 none)) × GivenUp i a.tunnels after.tunnels)

abbrev Received : ℕ → Manager → Manager × Option (Result ExposeError Text) → Type 0
Received i m (after, got) =
    ((host : Text) × (got ≡ some (ok host)) × Established i host m after)
    ⊎ ((e : ExposeError) × (got ≡ some (err e)) × GivenUp i m after)

received :
    (i : ℕ) (m : Manager) (host : Text)
    → buffer_of (get_elem? m.sessions i) ≡ some host
    → Received i m (receive_grant i m)
unfolding receive_grant store_or_cancel
received i m host b =
    let taken : Manager = change i (λ s. record s { granted = none }) m in
    elim (Bool-cases (text_eq host [])) [
      | inl e ↦
          subst (Received i m) {x = (change i cancel_session taken, some (err no_host))}
            (ground (arith, b, e))
            (inr (no_host, refl, changed-GivenUp i (λ s. record s { granted = none }) m))
      | inr n ↦ elim (Result-cases (store host i taken)) [
        | inr (e, q) ↦
            subst (Received i m) {x = (change i cancel_session taken, some (err (bad_tunnel e)))}
              (ground (arith, b, n, q))
              (inr (bad_tunnel e, refl, changed-GivenUp i (λ s. record s { granted = none }) m))
        | inl (after, q) ↦
            let (free, hosts, claims) = store-ok host i taken after q in
            subst (Received i m) {x = (after, some (ok host))} (ground (arith, b, n, q)) (
              inl (
                host,
                refl,
                record {
                  granted = b;
                  named = ground (arith, n, text_eq_iff host []);
                  free = free;
                  serves =
                      ap (lookup host) hosts
                      ∙ lookup-insert host host i m.active
                      ∙ rw (text_eq_refl host) refl;
                  hosts = λ h k. ap (lookup h) hosts ∙ lookup-insert host h i m.active ∙ rw k refl;
                  claims = claims;
                },
              ))
      ]
    ]

-- After handleExpose has started a tunnel, it goes on in one of three ways, and never touches the
-- routes or their owners' controls. There is no grant yet, and nothing has changed. Or it replies
-- with the host that was granted, which was no other session's and is now this session's, while the
-- other hosts and the claims are as they were. Or it replies 502: then the session is cancelled, and
-- the other sessions, the hosts and the claims are as they were.
pub end_expose-Ended :
    (i : ℕ) (event : ExposeEvent) (a : Agent)
    → ((end_expose i event a).0.reg ≡ a.reg)
      × ((end_expose i event a).0.owners ≡ a.owners)
      × Ended i a (end_expose i event a).0 (end_expose i event a).1
unfolding end_expose give_up
end_expose-Ended i tunnel_ended a = (refl, refl, inr (inr (refl, cancelled-GivenUp i a.tunnels)))
end_expose-Ended i request_ended a = (refl, refl, inr (inr (refl, cancelled-GivenUp i a.tunnels)))
end_expose-Ended i grant_received a = (
  refl,
  refl,
  elim (Option-cases (buffer_of (get_elem? a.tunnels.sessions i))) [
    | inl b ↦ waiting b
    | inr (host, b) ↦ elim (received i a.tunnels host b) [
      | inl (h, q, w) ↦ inr (inl (h, ap (Option.map expose_reply) q, w))
      | inr (e, q, w) ↦ inr (inr (ap (Option.map expose_reply) q, w))
    ]
  ],
)
  where
    waiting :
        buffer_of (get_elem? a.tunnels.sessions i) ≡ none
        → Ended i a
            (record a { tunnels = (receive_grant i a.tunnels).0 })
            (Option.map expose_reply (receive_grant i a.tunnels).1)
    waiting b =
        let same : receive_grant i a.tunnels ≡ (a.tunnels, none) =
          unfold receive_grant in ground (arith, b) in
        inl (
          ap (λ (x : Manager × Option (Result ExposeError Text)). Option.map expose_reply x.1) same,
          ap (λ (x : Manager × Option (Result ExposeError Text)). record a { tunnels = x.0 }) same,
          b,
        )
