-- ===== src/Server/Limiter/Invariant.antt =====
-- The limiter's invariant, which every call of allow keeps.
use routeup.Base.{
  Text, Bool-cases, Option-cases, is_some, length, any, length-append, text_eq, text_eq_iff,
  text_eq_refl, lookup, insert, lookup-insert, insert-IsMap, length-insert_new, length-insert_old,
  ℕ, ◌≤◌, ◌<◌, ◌≡◌, refl, ap, inl, inr, Bool, true, false, none, [], ◌∷◌, ◌++◌, arith,
}
use routeup.Server.Limiter.{
  MultiLimiter, Rate, remove_key, LimiterEntry, new_multi_limiter, make_room, take_token, allow,
}
use routeup.Server.Limiter.Keys.{
  any-snoc, any-remove_key, length-remove_key, remove_key-Distinct, snoc-Distinct,
}
use routeup.Server.Limiter.Linked.{Linked, make_room-Roomy}

module _ (rate : Rate) where
  pub record Inv (m : MultiLimiter rate) : Type 0 where
    pub linked : Linked rate m
    pub positive : 0 < m.max_keys
    pub bounded : length m.order ≤ m.max_keys

  pub new_multi_limiter-Inv : (infinite : Bool) → Inv (new_multi_limiter rate infinite)
  unfolding new_multi_limiter lookup
  new_multi_limiter-Inv infinite = record {
    linked = record { is_map = tt; counted = refl; listed = λ k. refl; once = tt };
    positive = omega arith;
    bounded = omega arith;
  }

  -- A new key goes to the back of the list with an entry of its own.
  add_new-Inv :
      (key : Text) (e : LimiterEntry rate) (m : MultiLimiter rate)
      → Linked rate m
      → length m.order < m.max_keys
      → lookup key m.limiters ≡ none
      → Inv (record m { limiters = insert key e m.limiters; order = m.order ++ key ∷ [] })
  add_new-Inv key e m v room new =
      let absent : any (text_eq key) m.order ≡ false = ground (arith, v.listed key, new) in
      record {
        linked = record {
          is_map = insert-IsMap key e m.limiters v.is_map;
          counted = omega (
            arith,
            v.counted,
            length-insert_new key e m.limiters new,
            length-append {0} m.order (key ∷ []),
          );
          listed = λ k. ground (
            arith,
            v.listed k,
            lookup-insert key k e m.limiters,
            any-snoc k key m.order,
            text_eq_iff k key,
            text_eq_iff key k,
          );
          once = snoc-Distinct key m.order v.once absent;
        };
        positive = omega arith;
        bounded = omega (arith, length-append {0} m.order (key ∷ []));
      }

  -- A known key moves to the back of the list and its entry is replaced.
  refresh-Inv :
      (key : Text) (e : LimiterEntry rate) (m : MultiLimiter rate)
      → Inv m
      → is_some (lookup key m.limiters) ≡ true
      → Inv (record m {
        limiters = insert key e m.limiters;
        order = remove_key key m.order ++ key ∷ [];
      })
  refresh-Inv key e m w there =
      let v = w.linked in
      let present : any (text_eq key) m.order ≡ true = ground (arith, v.listed key, there) in
      let gone : any (text_eq key) (remove_key key m.order) ≡ false =
        ground (arith, any-remove_key key key m.order v.once, text_eq_refl key) in
      let size : length (remove_key key m.order ++ key ∷ []) ≡ length m.order = omega (
        arith,
        length-remove_key key m.order present,
        length-append {0} (remove_key key m.order) (key ∷ []),
      ) in
      record {
        linked = record {
          is_map = insert-IsMap key e m.limiters v.is_map;
          counted = omega (arith, v.counted, size, length-insert_old key e m.limiters there);
          listed = λ k. ground (
            arith,
            v.listed k,
            lookup-insert key k e m.limiters,
            any-snoc k key (remove_key key m.order),
            any-remove_key key k m.order v.once,
            text_eq_iff k key,
            text_eq_iff key k,
          );
          once =
              snoc-Distinct key (remove_key key m.order) (remove_key-Distinct key m.order v.once)
                gone;
        };
        positive = w.positive;
        bounded = omega (arith, size, w.bounded);
      }

  -- Every call of allow keeps the map and the list in step, and their number of keys within the
  -- bound.
  pub allow-Inv :
      (key : Text) (now : ℕ) (m : MultiLimiter rate) → Inv m → Inv (allow rate key now m).0
  unfolding allow take_token
  allow-Inv key now m v = elim (Bool-cases m.unlimited) [
    | inl free ↦ let same : (allow rate key now m).0 ≡ m = ground (arith, free) in rw same v
    | inr metered ↦ elim (Option-cases (lookup key m.limiters)) [
      | inl new ↦
          let m' = make_room rate now m in
          let (shrunk, room) = make_room-Roomy rate now m v.linked v.positive v.bounded in
          let same : (allow rate key now m).0 ≡ record m' {
            limiters =
                insert key (record { limiter = (rate.allow_n rate.fresh now).0; last_seen = now })
                  m'.limiters;
            order = m'.order ++ key ∷ [];
          } =
            simp (metered, new) refl in
          rw same (add_new-Inv key _ m' shrunk.linked room (shrunk.no_new key new))
      | inr (e, known) ↦
          let same : (allow rate key now m).0 ≡ record m {
            limiters =
                insert key (record { limiter = (rate.allow_n e.limiter now).0; last_seen = now })
                  m.limiters;
            order = remove_key key m.order ++ key ∷ [];
          } =
            ground (arith, metered, known) in
          rw same (refresh-Inv key _ m v (ap is_some known))
    ]
  ]
