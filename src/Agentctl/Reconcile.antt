-- ===== src/Agentctl/Reconcile.antt =====
-- internal/agentctl/reconcile.go: the loop by which a command restores its claim and its exposure
-- after a restart of the agent. What the agent answers in one round, and when the context ends, is an
-- argument; times are in milliseconds.
pub mod Rounds
pub mod Backoff
use routeup.Base.{
  Text, ltb, if◌then◌else◌, eq_ℤ, text_eq, ℕ, ◌+◌, ◌*◌, Bool, true, false, not, ◌&&◌, ◌||◌, Option,
  none, some, List, [], ◌∷◌, ◌++◌,
}
use routeup.Agent.Registry.{Claim}
use routeup.Agent.Tunnels.Steps.{ExposeRequest, UnexposeRequest, ExposureStatus}

abbrev pub reconcile_interval : ℕ
reconcile_interval = 2000

abbrev pub max_exposure_backoff : ℕ
max_exposure_backoff = 30000

-- type DesiredState
pub record DesiredState : Type 0 where
  pub claim : Option Claim
  pub exposure : Option ExposeRequest
  pub public_host : Text

-- type ipc.Status, as far as the loop reads it
pub record Status : Type 0 where
  pub boot_id : Text
  pub exposures : List ExposureStatus

pub data StatusAnswer : Type 0 where
  got : Status → StatusAnswer
  unavailable failed : StatusAnswer

-- What happens in a round: whether the context is done at its start, the answer to Status and whether
-- the context is done then, whether the agent could be started, its status then, and whether Register
-- succeeds and which host Expose returns.
pub record Round : Type 0 where
  pub done : Bool
  pub status : StatusAnswer
  pub done_then : Bool
  pub ensured : Bool
  pub restarted_status : Option Status
  pub registers : Bool
  pub exposes : Option Text

-- The calls of a round that change the agent.
pub data Call : Type 0 where
  register : Claim → Call
  expose : ExposeRequest → Call
  unexpose : UnexposeRequest → Call

-- What a round leaves: the boot identifier, whether the exposure failed, and the calls it made.
pub record Reconciled : Type 0 where
  pub boot_id : Text
  pub exposure_failed : Bool
  pub calls : List Call

-- func hasExposure
unfoldable pub has_exposure : List ExposureStatus → ExposeRequest → Text → Bool
has_exposure [] req host = false
has_exposure (e ∷ es) req host =
    let rest = has_exposure es req host in
    if eq_ℤ e.owner_pid req.owner_pid
      && (text_eq e.route req.route && (text_eq host [] || text_eq e.host host))
    then true
    else rest

-- The status that the round goes by, if there is one.
unfoldable pub round_status : Round → Option Status
round_status r = elim r.status [
  | got s ↦ some s
  | failed ↦ none
  | unavailable ↦ if r.done_then then none else if not r.ensured then none else r.restarted_status
]

-- The last part of reconcileDesired: the exposure.
unfoldable pub restore_exposure : DesiredState → Round → Status → List Call → Reconciled
unfolding has_exposure
restore_exposure d r s calls = elim d.exposure [
  | none ↦ record { boot_id = s.boot_id; exposure_failed = false; calls = calls }
  | some req ↦
      if has_exposure s.exposures req d.public_host
      then record { boot_id = s.boot_id; exposure_failed = false; calls = calls }
      else elim r.exposes [
        | none ↦ record {
          boot_id = s.boot_id;
          exposure_failed = true;
          calls = calls ++ expose req ∷ [];
        }
        | some host ↦
            if not (text_eq d.public_host []) && not (text_eq host d.public_host)
            then record {
              boot_id = s.boot_id;
              exposure_failed = true;
              calls =
                  calls
                  ++ expose req
                    ∷ unexpose
                        (record { host = host; route = req.route; owner_pid = req.owner_pid })
                    ∷ [];
            }
            else record {
              boot_id = s.boot_id;
              exposure_failed = false;
              calls = calls ++ expose req ∷ [];
            }
      ]
]

-- reconcileDesired from its status on.
unfoldable pub reconcile_status : DesiredState → Text → Round → Status → Reconciled
unfolding restore_exposure
reconcile_status d boot_id r s =
    let restarted = text_eq boot_id [] || not (text_eq s.boot_id boot_id) in
    elim (if restarted then d.claim else none) [
      | none ↦ restore_exposure d r s []
      | some c ↦
          if r.registers
          then restore_exposure d r s (register c ∷ [])
          else record { boot_id = boot_id; exposure_failed = false; calls = register c ∷ [] }
    ]

-- A round that ends before it calls anything.
abbrev pub untouched : Text → Reconciled
untouched boot_id = record { boot_id = boot_id; exposure_failed = false; calls = [] }

-- func (c *Client) reconcileDesired
unfoldable pub reconcile_desired : DesiredState → Text → Round → Reconciled
unfolding round_status reconcile_status
reconcile_desired d boot_id r = if r.done then untouched boot_id else elim (round_status r) [
  | none ↦ untouched boot_id
  | some s ↦ reconcile_status d boot_id r s
]

-- The variables of Maintain; no time of the next attempt is Go's zero time.
pub record Loop : Type 0 where
  pub boot_id : Text
  pub backoff : ℕ
  pub next_attempt : Option ℕ

-- Maintain before its loop
unfoldable pub start_maintain : DesiredState → ℕ → Round → Loop × List Call
unfolding reconcile_desired
start_maintain d now r =
    let done = reconcile_desired d [] r in
    (
      record {
        boot_id = done.boot_id;
        backoff = reconcile_interval;
        next_attempt = if done.exposure_failed then some (now + reconcile_interval) else none;
      },
      done.calls,
    )

abbrev pub may_attempt : ℕ → Option ℕ → Bool
may_attempt now none = true
may_attempt now (some next) = not (ltb now next)

abbrev pub doubled : ℕ → ℕ
doubled b = if ltb max_exposure_backoff (b * 2) then max_exposure_backoff else b * 2

-- One tick of Maintain's loop, at a time, with the time after the round.
unfoldable pub tick : DesiredState → ℕ → ℕ → Round → Loop → Loop × List Call
unfolding reconcile_desired
tick d now after r l =
    let attempt = may_attempt now l.next_attempt in
    let wanted = if attempt then d else record d { exposure = none } in
    let done = reconcile_desired wanted l.boot_id r in
    (
      if not attempt
          then record l { boot_id = done.boot_id }
          else if done.exposure_failed
          then record {
            boot_id = done.boot_id;
            backoff = doubled l.backoff;
            next_attempt = some (after + l.backoff);
          }
          else record { boot_id = done.boot_id; backoff = reconcile_interval; next_attempt = none },
      done.calls,
    )

-- A tick of the loop: its time, the time after the round, and the round.
pub record Tick : Type 0 where
  pub now : ℕ
  pub after : ℕ
  pub round : Round

-- Maintain's loop, over the ticks of its ticker, the first one first.
unfoldable pub ticks : DesiredState → List Tick → Loop → Loop
unfolding tick
ticks d [] l = l
ticks d (t ∷ ts) l = ticks d ts (tick d t.now t.after t.round l).0

-- func (c *Client) Maintain, until a tick
unfoldable pub maintain : DesiredState → ℕ → Round → List Tick → Loop
unfolding start_maintain ticks
maintain d now r ts = ticks d ts (start_maintain d now r).0
