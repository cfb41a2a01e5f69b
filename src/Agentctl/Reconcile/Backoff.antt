-- ===== src/Agentctl/Reconcile/Backoff.antt =====
-- How often a failed exposure is tried again.
use routeup.Base.{ℕ, ◌+◌, ◌≤◌, ◌≡◌, some, List, [], ◌∷◌, arith}
use routeup.Agentctl.Reconcile.{
  Loop, reconcile_interval, max_exposure_backoff, DesiredState, Round, start_maintain, tick, Tick,
  ticks, maintain,
}

-- The backoff is between the interval and its bound, and the next attempt is, if it waits, no further
-- than this bound after some time that has passed.
pub record Bounded (last : ℕ) (l : Loop) : Type 0 where
  pub least : reconcile_interval ≤ l.backoff
  pub most : l.backoff ≤ max_exposure_backoff
  pub next : (t : ℕ) → l.next_attempt ≡ some t → t ≤ last + max_exposure_backoff

start_maintain-Bounded :
    (d : DesiredState) (now : ℕ) (r : Round) → Bounded now (start_maintain d now r).0
unfolding start_maintain
start_maintain-Bounded d now r = record {
  least = omega arith;
  most = omega arith;
  next = λ t e. ground (arith, e);
}

tick-Bounded :
    (d : DesiredState) (last now after : ℕ) (r : Round) (l : Loop)
    → last ≤ after
    → Bounded last l
    → Bounded after (tick d now after r l).0
unfolding tick
tick-Bounded d last now after r l h v = record {
  least = ground (arith, v.least, v.most);
  most = ground (arith, v.least, v.most);
  next = λ t e. ground (arith, e, h, v.most, v.next t);
}

-- The times after the rounds never go back.
abbrev pub Ascending : ℕ → List Tick → Type 0
Ascending last [] = Unit
Ascending last (t ∷ ts) = (last ≤ t.after) × Ascending t.after ts

abbrev pub last_time : ℕ → List Tick → ℕ
last_time last [] = last
last_time last (t ∷ ts) = last_time t.after ts

ticks-Bounded :
    (d : DesiredState) (last : ℕ) (ts : List Tick) (l : Loop)
    → Ascending last ts
    → Bounded last l
    → Bounded (last_time last ts) (ticks d ts l)
unfolding ticks
ticks-Bounded d last [] l h v = v
ticks-Bounded d last (t ∷ ts) l h v =
    ticks-Bounded d t.after ts (tick d t.now t.after t.round l).0 h.1
      (tick-Bounded d last t.now t.after t.round l h.0 v)

-- Whatever the rounds of Maintain bring, while the clock does not go back: the backoff of the exposure
-- is always between two and thirty seconds, and a next attempt that is put off is due at most thirty
-- seconds after the last round.
pub maintain-Bounded :
    (d : DesiredState) (now : ℕ) (r : Round) (ts : List Tick)
    → Ascending now ts
    → Bounded (last_time now ts) (maintain d now r ts)
unfolding maintain
maintain-Bounded d now r ts h =
    ticks-Bounded d now ts (start_maintain d now r).0 h (start_maintain-Bounded d now r)
