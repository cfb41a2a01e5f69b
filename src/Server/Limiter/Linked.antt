-- ===== src/Server/Limiter/Linked.antt =====
-- The limiter's map and its list of keys in step, and what the evictions leave of them.
use routeup.Base.{
  Text, is_some, length, any, text_eq, lookup, lookup-delete, IsMap, delete-IsMap, length-delete,
  ◌≡◌, true, arith, Bool-cases, text_eq_refl, ℕ, ◌≤◌, refl, sym, ap, ◌∙◌, inl, inr, none, List, [],
  ◌∷◌, leb, ◌<◌,
}
use routeup.Server.Limiter.{
  Rate, MultiLimiter, remove_locked, remove_key, is_idle, evict_idle_from, evict_oldest, evict_idle,
  make_room,
}
use routeup.Server.Limiter.Keys.{Distinct, any-remove_key, length-remove_key, remove_key-Distinct}

module _ (rate : Rate) where
  -- The key stands in the list as often as it has an entry: once or not at all.
  pub record Linked (m : MultiLimiter rate) : Type 0 where
    pub is_map : IsMap m.limiters
    pub counted : length m.limiters ≡ length m.order
    pub listed : (k : Text) → any (text_eq k) m.order ≡ is_some (lookup k m.limiters)
    pub once : Distinct m.order

  remove_locked-Linked :
      (key : Text) (m : MultiLimiter rate)
      → Linked m
      → is_some (lookup key m.limiters) ≡ true
      → Linked (remove_locked rate key m)
  unfolding remove_locked
  remove_locked-Linked key m v h = record {
    is_map = delete-IsMap key m.limiters v.is_map;
    counted = ground (
      arith,
      v.counted,
      v.listed key,
      length-delete key m.limiters v.is_map,
      length-remove_key key m.order,
      h,
    );
    listed = λ k.
        ground
          (arith, v.listed k, lookup-delete key k m.limiters, any-remove_key key k m.order v.once);
    once = remove_key-Distinct key m.order v.once;
  }

  -- What an eviction leaves: the two structures in step, no more keys, no new keys, one setting.
  pub record Shrunk (m m' : MultiLimiter rate) : Type 0 where
    pub linked : Linked m'
    pub fewer : length m'.order ≤ length m.order
    pub no_new : (k : Text) → lookup k m.limiters ≡ none → lookup k m'.limiters ≡ none
    pub same_max : m'.max_keys ≡ m.max_keys
    pub same_ttl : m'.idle_ttl ≡ m.idle_ttl
    pub same_rate : m'.unlimited ≡ m.unlimited

  Shrunk-refl : (m : MultiLimiter rate) → Linked m → Shrunk m m
  Shrunk-refl m v = record {
    linked = v;
    fewer = omega arith;
    no_new = λ k h. h;
    same_max = refl;
    same_ttl = refl;
    same_rate = refl;
  }

  Shrunk-trans : (a b c : MultiLimiter rate) → Shrunk a b → Shrunk b c → Shrunk a c
  Shrunk-trans a b c p q = record {
    linked = q.linked;
    fewer = omega (arith, p.fewer, q.fewer);
    no_new = λ k h. q.no_new k (p.no_new k h);
    same_max = q.same_max ∙ p.same_max;
    same_ttl = q.same_ttl ∙ p.same_ttl;
    same_rate = q.same_rate ∙ p.same_rate;
  }

  head_listed :
      (key : Text) (keys : List Text) (m : MultiLimiter rate)
      → Linked m
      → m.order ≡ key ∷ keys
      → is_some (lookup key m.limiters) ≡ true
  head_listed key keys m v e =
      sym (v.listed key) ∙ ap (any (text_eq key)) e ∙ ground (arith, text_eq_refl key)

  remove_locked-order :
      (key : Text) (keys : List Text) (m : MultiLimiter rate)
      → m.order ≡ key ∷ keys
      → (remove_locked rate key m).order ≡ keys
  unfolding remove_locked remove_key
  remove_locked-order key keys m e = rw e (rw (text_eq_refl key))

  remove_locked-Shrunk :
      (key : Text) (keys : List Text) (m : MultiLimiter rate)
      → Linked m
      → m.order ≡ key ∷ keys
      → Shrunk m (remove_locked rate key m)
  remove_locked-Shrunk key keys m v e = record {
    linked = remove_locked-Linked key m v (head_listed key keys m v e);
    fewer = omega (arith, ap length (remove_locked-order key keys m e), ap length e);
    no_new = λ k h. unfold remove_locked in ground (arith, lookup-delete key k m.limiters, h);
    same_max = unfold remove_locked in refl;
    same_ttl = unfold remove_locked in refl;
    same_rate = unfold remove_locked in refl;
  }

  evict_idle_from-Shrunk :
      (now : ℕ) (keys : List Text) (m : MultiLimiter rate)
      → Linked m
      → m.order ≡ keys
      → Shrunk m (evict_idle_from rate now keys m)
  unfolding evict_idle_from
  evict_idle_from-Shrunk now [] m v e = Shrunk-refl m v
  evict_idle_from-Shrunk now (key ∷ keys) m v e =
      elim (Bool-cases (is_idle rate now m.idle_ttl (lookup key m.limiters))) [
        | inr busy ↦ rw busy (Shrunk-refl m v)
        | inl idle ↦
            let one = remove_locked-Shrunk key keys m v e in
            rw idle (
              Shrunk-trans m (remove_locked rate key m) _ one (
                evict_idle_from-Shrunk now keys (remove_locked rate key m) one.linked
                  (remove_locked-order key keys m e)))
      ]

  -- Evicting the oldest key leaves room where the limiter is at its bound.
  abbrev Roomy : MultiLimiter rate → MultiLimiter rate → Type 0
  Roomy m m' = Shrunk m m' × (length m'.order < m'.max_keys)

  evict_oldest-Roomy :
      (m : MultiLimiter rate)
      → Linked m
      → 0 < m.max_keys
      → length m.order ≤ m.max_keys
      → Roomy m (evict_oldest rate m)
  unfolding evict_oldest
  evict_oldest-Roomy m v positive bound = go m.order refl
    where
      go : (keys : List Text) → m.order ≡ keys → Roomy m (evict_oldest rate m)
      go [] e =
          let same : evict_oldest rate m ≡ m = ground (arith, e) in
          rw same (Shrunk-refl m v, omega (arith, ap length e))
      go (key ∷ keys) e =
          let same : evict_oldest rate m ≡ remove_locked rate key m = ground (arith, e) in
          let one = remove_locked-Shrunk key keys m v e in
          rw same (
            one,
            omega (arith, one.same_max, ap length (remove_locked-order key keys m e), ap length e),
          )

  pub make_room-Roomy :
      (now : ℕ) (m : MultiLimiter rate)
      → Linked m
      → 0 < m.max_keys
      → length m.order ≤ m.max_keys
      → Roomy m (make_room rate now m)
  unfolding make_room evict_idle
  make_room-Roomy now m v positive bound =
      let m' = evict_idle_from rate now m.order m in
      let one = evict_idle_from-Shrunk now m.order m v refl in
      elim (Bool-cases (leb m'.max_keys (length m'.limiters))) [
        | inl full ↦
            let two =
              evict_oldest-Roomy m' one.linked (omega (arith, one.same_max))
                (omega (arith, one.same_max, one.fewer)) in
            rw full (Shrunk-trans m m' _ one two.0, two.1)
        | inr free ↦ rw free (one, ground (arith, one.linked.counted))
      ]
