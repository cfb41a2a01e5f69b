-- ===== src/Agent/Registry/Laws.antt =====
-- Who owns a name in the registry, and what its methods leave alone.
use routeup.Base.{
  Text, if◌then◌else◌, Option-cases, ℤ, eq_ℤ_iff, ok, err, Result-cases, text_eq, lookup, insert,
  lookup-delete, IsMap, ℕ, ◌≡◌, refl, ◌≢◌, ◌↔◌, inl, inr, Bool, true, false, ◌&&◌, none, some, [],
  ◌∷◌, arith, text_eq_iff, lookup-insert, lookup_of_Lacks, subst, In, Sorted, sort_by-Sorted,
  In-sort_by,
}
use routeup.Strings.{Unicode}
use routeup.Agent.Registry.{
  Claim, Registry, conflict, no_targets, normalize_claim, unregister, pid_alive, held_by_other,
  register, reap, values, list,
}

-- What a registration leaves: the new claim under its name, and every other name as it was.
pub record Registered (now : ℕ) (c given : Claim) (before after : Registry) : Type 0 where
  pub same_name : c.name ≡ given.name
  pub same_owner : c.owner_pid ≡ given.owner_pid
  pub stamped : c.registered_at ≡ now
  pub private : c.public_paths ≡ []
  pub has_target : no_targets c.targets ≡ false
  pub table : (j : Text) → lookup j after ≡ (if text_eq c.name j then some c else lookup j before)

normalize_claim-kept :
    (u : Unicode) (c d : Claim)
    → normalize_claim u c ≡ ok d
    → (d.name ≡ c.name)
      × (d.owner_pid ≡ c.owner_pid)
      × (d.public_paths ≡ [])
      × (no_targets d.targets ≡ false)
unfolding normalize_claim
normalize_claim-kept u c d h = ground (arith, h)

module _ (signal : ℤ → Bool) where
  -- A registration succeeds only where no other live process owns the name. Then the claim stands
  -- under its name with the caller as its owner, the time of the registration, at least one target
  -- and no public path, and every other name is as it was.
  pub register-Registered :
      (u : Unicode) (now : ℕ) (given c : Claim) (before after : Registry)
      → register signal u now given before ≡ ok (after, c)
      → (held_by_other signal (lookup given.name before) given.owner_pid ≡ false)
        × Registered now c given before after
  unfolding register
  register-Registered u now given c before after h = elim (Result-cases (normalize_claim u given)) [
    | inr (e, bad) ↦ absurd (ground (arith, bad, h))
    | inl (d, good) ↦
        let (name, owner, paths, targets) = normalize_claim-kept u given d good in
        let free : held_by_other signal (lookup d.name before) d.owner_pid ≡ false =
          ground (arith, good, h) in
        let same : record d { registered_at = now } ≡ c = ground (arith, good, free, h) in
        let after_eq : insert d.name (record d { registered_at = now }) before ≡ after =
          ground (arith, good, free, h) in
        let stamped : Claim = record d { registered_at = now } in
        let after' = insert d.name stamped before in
        let done : Registered now stamped given before after' = record {
          same_name = name;
          same_owner = owner;
          stamped = refl;
          private = paths;
          has_target = targets;
          table = λ j. lookup-insert d.name j stamped before;
        } in
        (
          rw (← name, ← owner) free,
          subst (λ x. Registered now x given before after) same
              (subst (λ m. Registered now stamped given before m) after_eq done),
        )
  ]

  -- Where the claim is in order, it is refused with a conflict exactly for another live process that
  -- owns the name, and the error carries that process's claim.
  pub register-conflict_iff :
      (u : Unicode) (now : ℕ) (given d existing : Claim) (m : Registry)
      → normalize_claim u given ≡ ok d
      → (register signal u now given m ≡ err (conflict d.name existing)) ↔ (
          (lookup d.name m ≡ some existing)
          × (existing.owner_pid ≢ d.owner_pid)
          × (pid_alive signal existing.owner_pid ≡ true))
  unfolding register
  register-conflict_iff u now given d existing m good =
      ground (arith, good, eq_ℤ_iff existing.owner_pid d.owner_pid)

  -- In a registry that has each name once, Reap drops the claims of dead processes and no others.
  pub lookup-reap :
      (j : Text) (m : Registry)
      → IsMap m
      → lookup j (reap signal m).0 ≡ elim (lookup j m) [
        | none ↦ none
        | some c ↦ if pid_alive signal c.owner_pid then some c else none
      ]
  unfolding reap lookup
  lookup-reap j [] v = refl
  lookup-reap j ((k, c) ∷ m) v =
      ground (arith, lookup-reap j m v.1, lookup_of_Lacks k m v.0, text_eq_iff k j)

-- Unregister drops the claim of its owner, says so, and leaves everything else alone.
pub lookup-unregister :
    (name j : Text) (owner : ℤ) (m : Registry)
    → lookup j (unregister name owner m).0
      ≡ (if (unregister name owner m).1 && text_eq name j then none else lookup j m)
unfolding unregister
lookup-unregister name j owner m = elim (Option-cases (lookup name m)) [
  | inl missed ↦ ground (arith, missed)
  | inr (c, found) ↦ ground (arith, found, lookup-delete name j m)
]

-- List shows the claims of the registry and no other, in the order of the names.
pub list-Sorted :
    (m : Registry) → Sorted (λ c. c.name) (list m) × ((c : Claim) → In c (list m) ↔ In c (values m))
unfolding list
list-Sorted m =
    (sort_by-Sorted (λ c. c.name) (values m), λ c. In-sort_by (λ c. c.name) c (values m))
