-- ===== src/Server/Holds/Blocking.antt =====
-- Who is refused a host, and what HoldRoute does on every branch.
use routeup.Base.{
  Text, if◌then◌else◌, OnSome, ok, err, text_eq, text_eq_iff, lookup, ℕ, ◌≤◌, ◌<◌, ◌≡◌, ◌≢◌, ◌↔◌,
  ◌⊎◌, true, false, Option, none, some, [], arith, Bool-cases, Option-cases, inl, inr, insert,
  lookup-insert,
}
use routeup.Server.Holds.{
  Table, by_token, active, HoldRequest, RouteHold, route_conflict, is_namespace, same_token,
  hold_blocked, Faults, blocked_by, generation_after, hold_route, is_active,
}

-- A hold counts while it is active, and a token's also during its grace.
abbrev pub IsLive : RouteHold → ℕ → Type 0
IsLive h now =
    (h.state ≡ active)
    ⊎ ((h.kind ≡ by_token) × (until : ℕ) × (h.grace_until ≡ some until) × (now < until))

-- Only a token owns a hold, and only a token hold.
pub record IsOwner (h : RouteHold) (req : HoldRequest) : Type 0 where
  pub token_hold : h.kind ≡ by_token
  pub token_request : req.kind ≡ by_token
  pub named : req.token_id ≢ []
  pub same : h.token_id ≡ req.token_id

same_token_iff :
    (h : RouteHold) (req : HoldRequest)
    → h.kind ≡ by_token
    → (same_token h req ≡ true) ↔ IsOwner h req
same_token_iff h req k = (
  λ e. record {
    token_hold = k;
    token_request = ground arith;
    named = ground (arith, text_eq_iff req.token_id []);
    same = ground (arith, text_eq_iff h.token_id req.token_id);
  },
  λ o. ground (
    arith,
    o.token_request,
    o.named,
    o.same,
    text_eq_iff req.token_id [],
    text_eq_iff h.token_id req.token_id,
  ),
)

hold_blocked-IsLive :
    (h : RouteHold) (req : HoldRequest) (now : ℕ)
    → hold_blocked h req now ≡ true
    → IsLive h now × ¬ IsOwner h req
unfolding hold_blocked
hold_blocked-IsLive h req now e = (
  elim (Bool-cases (is_active h.state)) [
    | inl a ↦ inl (ground arith)
    | inr r ↦ elim (Option-cases h.grace_until) [
      | inl g ↦ absurd (ground arith)
      | inr (until, g) ↦ inr (ground arith, until, g, ground arith)
    ]
  ],
  λ o. ground (arith, o.token_hold, (same_token_iff h req o.token_hold).1 o),
)

live-hold_blocked :
    (h : RouteHold) (req : HoldRequest) (now : ℕ)
    → IsLive h now
    → ¬ IsOwner h req
    → hold_blocked h req now ≡ true
unfolding hold_blocked
live-hold_blocked h req now (inl a) o = elim (Bool-cases (is_namespace h.kind)) [
  | inl k ↦ ground arith
  | inr k ↦ elim (Bool-cases (same_token h req)) [
    | inl s ↦ absurd (o ((same_token_iff h req (ground arith)).0 s))
    | inr s ↦ ground arith
  ]
]
live-hold_blocked h req now (inr (k, until, g, l)) o = elim (Bool-cases (same_token h req)) [
  | inl s ↦ absurd (o ((same_token_iff h req k).0 s))
  | inr s ↦ ground arith
]

-- A hold blocks a request exactly when the hold is live and the request is not from the token that
-- owns it.
pub hold_blocked_iff :
    (h : RouteHold) (req : HoldRequest) (now : ℕ)
    → (hold_blocked h req now ≡ true) ↔ (IsLive h now × ¬ IsOwner h req)
hold_blocked_iff h req now =
    (hold_blocked-IsLive h req now, λ p. live-hold_blocked h req now p.0 p.1)

-- What a successful HoldRoute leaves behind.
pub record Held (now : ℕ) (db : Table) (req : HoldRequest) (db' : Table) (h : RouteHold)
    : Type 0 where
  pub host : h.host ≡ req.host
  pub kind : h.kind ≡ req.kind
  pub token_id : h.token_id ≡ req.token_id
  pub state : h.state ≡ active
  pub ephemeral : h.ephemeral ≡ is_namespace req.kind
  pub current : now ≤ h.held_at
  pub later : OnSome (λ old. old.held_at < h.held_at) (lookup req.host db)
  pub unblocked : blocked_by (lookup req.host db) req now ≡ false
  pub table : (j : Text) → lookup j db' ≡ (if text_eq req.host j then some h else lookup j db)

generation_after-later :
    (o : Option RouteHold) (now : ℕ)
    → (now ≤ generation_after o now) × OnSome (λ old. old.held_at < generation_after o now) o
generation_after-later none now = (omega arith, tt)
generation_after-later (some h) now = ground arith

-- A successful HoldRoute met no blocking hold; it writes one active hold for the requester, with a
-- generation that is not before the clock and later than that of the host's former hold; and it
-- leaves all other hosts alone.
pub hold_route-Held :
    (f : Faults) (now : ℕ) (db db' : Table) (req : HoldRequest) (h : RouteHold)
    → hold_route f now db req ≡ ok (db', h)
    → Held now db req db' h
unfolding hold_route
hold_route-Held f now db db' req h e =
    let g = generation_after-later (lookup req.host db) now in
    record {
      host = ground arith;
      kind = ground arith;
      token_id = ground arith;
      state = ground arith;
      ephemeral = ground arith;
      current = ground (arith, g.0);
      later =
          let held : h.held_at ≡ generation_after (lookup req.host db) now = ground arith in
          rw held g.1;
      unblocked = ground arith;
      table = λ j.
          let same : db' ≡ insert req.host h db = ground arith in
          rw same (lookup-insert req.host j h db);
    }

-- With a table that answers, HoldRoute reports a conflict exactly when a hold blocks the request.
pub hold_route-cases :
    (f : Faults) (now : ℕ) (db : Table) (req : HoldRequest)
    → f.reading ≡ false
    → (hold_route f now db req ≡ err route_conflict)
      ↔ (blocked_by (lookup req.host db) req now ≡ true)
unfolding hold_route
hold_route-cases f now db req r = (λ e. ground arith, λ e. ground arith)
