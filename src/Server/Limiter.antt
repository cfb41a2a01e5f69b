-- ===== src/Server/Limiter.antt =====
-- internal/server/ratelimit.go: one token bucket for each key, the least recently used keys in
-- front. Package golang.org/x/time/rate is a parameter: a bucket, a new one, and the taking of one
-- token at a time. The doubly linked list is the list of its keys; an element is known by its key,
-- which stands in it once. Times are the readings of the limiter's clock, in nanoseconds.
mod Keys
mod Linked
pub mod Invariant
use routeup.Base.{
  Text, Map, ℕ, Bool, List, ltb, leb, if◌then◌else◌, length, text_eq, lookup, insert, delete, ◌+◌,
  true, false, not, Option, none, some, [], ◌∷◌, ◌++◌,
}

abbrev pub default_limiter_max_keys : ℕ
default_limiter_max_keys = 10000

abbrev pub default_limiter_idle_ttl : ℕ
default_limiter_idle_ttl = 600000000000

-- The buckets of package rate.
pub record Rate : Type 1 where
  pub Bucket : Type 0
  pub fresh : Bucket
  pub allow_n : Bucket → ℕ → Bucket × Bool

-- list.Remove, by the element's key
unfoldable pub remove_key : Text → List Text → List Text
remove_key k [] = []
remove_key k (j ∷ js) = let rest = remove_key k js in if text_eq j k then js else j ∷ rest

module _ (rate : Rate) where
  open rate use {Bucket, fresh, allow_n}

  -- type limiterEntry, less its list element
  pub record LimiterEntry : Type 0 where
    pub limiter : Bucket
    pub last_seen : ℕ

  -- type multiLimiter; `unlimited` says that r is rate.Inf
  pub record MultiLimiter : Type 0 where
    pub limiters : Map LimiterEntry
    pub order : List Text
    pub unlimited : Bool
    pub max_keys : ℕ
    pub idle_ttl : ℕ

  -- newMultiLimiter; `infinite` says that ratePerSec is 0, and the burst is part of `fresh`
  unfoldable pub new_multi_limiter : Bool → MultiLimiter
  new_multi_limiter infinite = record {
    limiters = [];
    order = [];
    unlimited = infinite;
    max_keys = default_limiter_max_keys;
    idle_ttl = default_limiter_idle_ttl;
  }

  -- func (m *multiLimiter) removeLocked
  unfoldable pub remove_locked : Text → MultiLimiter → MultiLimiter
  unfolding remove_key
  remove_locked key m = record m {
    limiters = delete key m.limiters;
    order = remove_key key m.order;
  }

  -- Whether an entry has been idle for the time to live. A clock that went back makes the
  -- difference of the times negative, which is less.
  abbrev pub is_idle : ℕ → ℕ → Option LimiterEntry → Bool
  is_idle now ttl none = false
  is_idle now ttl (some e) = not (ltb now (e.last_seen + ttl))

  -- evictIdleLocked's loop, over the keys that are left; each key in the order has an entry.
  unfoldable pub evict_idle_from : ℕ → List Text → MultiLimiter → MultiLimiter
  evict_idle_from now [] m = m
  evict_idle_from now (key ∷ keys) m =
      let rest = evict_idle_from now keys (remove_locked key m) in
      if is_idle now m.idle_ttl (lookup key m.limiters) then rest else m

  -- func (m *multiLimiter) evictIdleLocked
  unfoldable pub evict_idle : ℕ → MultiLimiter → MultiLimiter
  evict_idle now m = evict_idle_from now m.order m

  -- func (m *multiLimiter) evictOldestLocked
  unfoldable pub evict_oldest : MultiLimiter → MultiLimiter
  evict_oldest m = elim m.order [ [] ↦ m | key ∷ keys ↦ remove_locked key m ]

  -- allow's room for a new key.
  unfoldable pub make_room : ℕ → MultiLimiter → MultiLimiter
  make_room now m =
      let m' = evict_idle now m in
      if leb m'.max_keys (length m'.limiters) then evict_oldest m' else m'

  -- The last statements of allow, for a limiter in which the key stands at the back.
  unfoldable pub take_token : Text → ℕ → Bucket → List Text → MultiLimiter → MultiLimiter × Bool
  take_token key now bucket order m =
      let (bucket', allowed) = allow_n bucket now in
      (
        record m {
          limiters = insert key (record { limiter = bucket'; last_seen = now }) m.limiters;
          order = order;
        },
        allowed,
      )

  -- func (m *multiLimiter) allow
  unfoldable pub allow : Text → ℕ → MultiLimiter → MultiLimiter × Bool
  unfolding take_token
  allow key now m = if m.unlimited then (m, true) else elim (lookup key m.limiters) [
    | none ↦ let m' = make_room now m in take_token key now fresh (m'.order ++ key ∷ []) m'
    | some e ↦ take_token key now e.limiter (remove_key key m.order ++ key ∷ []) m
  ]
