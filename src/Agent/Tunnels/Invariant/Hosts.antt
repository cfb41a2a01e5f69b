-- ===== src/Agent/Tunnels/Invariant/Hosts.antt =====
-- What gives a session its host, and what takes the host away, keep the invariant.
use routeup.Base.{
  Text, Bool-cases, get_elem?, ok, text_eq, text_eq_iff, insert, lookup-insert, insert-IsMap, ℕ,
  zero, suc, ◌≡◌, sym, ap, subst, ◌≢◌, inl, inr, false, some, List, [], ◌∷◌, arith, if◌then◌else◌,
  Option-cases, ℤ, Result-cases, Map, lookup, delete, lookup-delete, Lacks, IsMap, lookup_of_Lacks,
  delete-IsMap, refl, ◌∙◌, ◌⊎◌, Bool, none,
}
use routeup.Agent.Tunnels.{
  Session, Manager, update_session, store_found, store, change, cancel_session,
}
use routeup.Agent.Tunnels.Steps.{
  UnexposeRequest, store_or_cancel, receive_grant, same_owner, unexpose_found, unexpose, owner_dead,
  dead_owners, cancel_all, reap_dead_owners,
}
use routeup.Agent.Tunnels.Claims.{update_session-at}
use routeup.Agent.Tunnels.Invariant.{Inv, Serves, Buffered, BufferOk, Inv-fewer}
use routeup.Agent.Tunnels.Invariant.Events.{Inv-cancel, Inv-received}

update_session-same :
    (i : ℕ) (f : Session → Session) (ss : List Session) {s : Session}
    → get_elem? ss i ≡ some s
    → f s ≡ s
    → update_session i f ss ≡ ss
unfolding update_session
update_session-same i f [] q e = cc
update_session-same zero f (t ∷ ss) q e = cc
update_session-same (suc i) f (t ∷ ss) q e = ap (λ ts. t ∷ ts) (update_session-same i f ss q e)

-- An active host is added for a session that has it.
Inv-insert :
    (host : Text) (i : ℕ) (m : Manager)
    → Serves host (get_elem? m.sessions i)
    → Inv m
    → Inv (record m { active = insert host i m.active })
Inv-insert host i m p v = record {
  keys = insert-IsMap host i m.active v.keys;
  active_ok = λ h j e. elim (Bool-cases (text_eq host h)) [
    | inl b ↦ moved h j ((text_eq_iff host h).0 b) (rw (lookup-insert host h i m.active, b) at e)
    | inr b ↦ v.active_ok h j (rw (lookup-insert host h i m.active, b) at e)
  ];
  claims_ok = v.claims_ok;
  live_claim = v.live_claim;
  buffer_ok = v.buffer_ok;
}
  where
    moved : (h : Text) (j : ℕ) → host ≡ h → some i ≡ some j → Serves h (get_elem? m.sessions j)
    moved h j b e =
        subst (λ h'. Serves h' (get_elem? m.sessions j)) b
          (subst (λ k. Serves host (get_elem? m.sessions k)) (ground (arith, e)) p)

abbrev hosted : Text → Session → Session
hosted host t = record t { host = host }

abbrev stored : Text → ℕ → Manager → Manager
stored host i m = record m {
  sessions = update_session i (hosted host) m.sessions;
  active = insert host i m.active;
}

store-stored :
    (host : Text) (i : ℕ) (s : Session) (m m' : Manager)
    → store_found host i (some s) m ≡ ok m'
    → (s.done ≡ false) × (m' ≡ stored host i m)
unfolding store_found
store-stored host i s m m' e = ground (arith, e)

Inv-store :
    (host : Text) (i : ℕ) (s : Session) (m m' : Manager)
    → get_elem? m.sessions i ≡ some s
    → host ≢ []
    → s.host ≡ host
    → store host i m ≡ ok m'
    → Inv m
    → Inv m'
unfolding store
Inv-store host i s m m' q n p e v =
    let (d, r) = store-stored host i s m m' (rw q at e) in
    let fixed = update_session-same i (hosted host) m.sessions q (ap (λ h. hosted h s) (sym p)) in
    let kept : Inv (record m { active = insert host i m.active }) =
      Inv-insert host i m (subst (Serves host) (sym q) (n, p, d)) v in
    subst Inv (sym r) (
      subst (λ ss. Inv (record m { sessions = ss; active = insert host i m.active })) (sym fixed)
        kept)

Inv-store_or_cancel :
    (host : Text) (i : ℕ) (s : Session) (m : Manager)
    → get_elem? m.sessions i ≡ some s
    → host ≢ []
    → s.host ≡ host
    → Inv m
    → Inv (store_or_cancel host i m).0
unfolding store_or_cancel
Inv-store_or_cancel host i s m q n p v = elim (Result-cases (store host i m)) [
  | inl (m', e) ↦ rw (store_or_cancel, e) (Inv-store host i s m m' q n p e v)
  | inr (why, e) ↦ rw (store_or_cancel, e) (Inv-cancel i m v)
]

-- The manager after Expose has taken the host out of a session's buffer.
abbrev taken : ℕ → Manager → Manager
taken i m = change i (λ s. record s { granted = none }) m

Inv-receive_found :
    (host : Text) (i : ℕ) (s : Session) (m : Manager)
    → get_elem? m.sessions i ≡ some s
    → s.granted ≡ some host
    → Inv m
    → Inv (receive_grant i m).0
unfolding receive_grant
Inv-receive_found host i s m q g v = elim (Bool-cases (text_eq host [])) [
  | inl e ↦ rw (receive_grant, q, g, e) (Inv-cancel i (taken i m) (Inv-received i m v))
  | inr e ↦
      rw (receive_grant, q, g, e)
        (Inv-store_or_cancel host i (record s { granted = none }) (taken i m) at_i
          (ground (arith, e, text_eq_iff host []))
          (its_host e (subst (Buffered s) g (subst BufferOk q (v.buffer_ok i))))
          (Inv-received i m v))
]
  where
    at_i : get_elem? (taken i m).sessions i ≡ some (record s { granted = none })
    at_i = update_session-at i i (λ t. record t { granted = none }) m.sessions ∙ ground (arith, q)

    its_host : text_eq host [] ≡ false → (host ≡ []) ⊎ (s.host ≡ host) → s.host ≡ host
    its_host e (inl z) = ground (arith, e, text_eq_iff host [])
    its_host e (inr z) = z

pub Inv-receive_grant : (i : ℕ) (m : Manager) → Inv m → Inv (receive_grant i m).0
unfolding receive_grant
Inv-receive_grant i m v = elim (Option-cases (get_elem? m.sessions i)) [
  | inl e ↦ rw (receive_grant, e) v
  | inr (s, e) ↦ elim (Option-cases s.granted) [
    | inl g ↦ rw (receive_grant, e, g) v
    | inr (host, g) ↦ Inv-receive_found host i s m e g v
  ]
]

pub Inv-unexpose : (req : UnexposeRequest) (m : Manager) → Inv m → Inv (unexpose req m).0
unfolding unexpose unexpose_found
Inv-unexpose req m v = elim (Option-cases (lookup req.host m.active)) [
  | inl e ↦ rw e v
  | inr (i, e) ↦ elim (Bool-cases (same_owner req (get_elem? m.sessions i))) [
    | inl b ↦ rw (e, b) (Inv-cancel i (record m { active = delete req.host m.active }) released)
    | inr b ↦ rw (e, b) v
  ]
]
  where
    released : Inv (record m { active = delete req.host m.active })
    released =
        Inv-fewer m (delete req.host m.active) (delete-IsMap req.host m.active v.keys)
          (λ h i e. ground (arith, e, lookup-delete req.host h m.active)) v

Inv-cancel_all :
    (is : List ℕ) (m : Manager) → Inv m → Inv (record m { sessions = cancel_all is m.sessions })
unfolding cancel_all
Inv-cancel_all [] m v = v
Inv-cancel_all (i ∷ is) m v = Inv-cancel_all is (change i cancel_session m) (Inv-cancel i m v)

module _ (signal : ℤ → Bool) where
  -- What ReapDeadOwners leaves of the active hosts.
  pub lookup-dead_owners :
      (ss : List Session) (h : Text) (hosts : Map ℕ)
      → IsMap hosts
      → lookup h (dead_owners signal ss hosts).0 ≡ elim (lookup h hosts) [
        | none ↦ none
        | some i ↦ if owner_dead signal ss i then none else some i
      ]
  unfolding lookup dead_owners
  lookup-dead_owners ss h [] v = refl
  lookup-dead_owners ss h ((k, i) ∷ hosts) v =
      ground
        (arith, lookup-dead_owners ss h hosts v.1, lookup_of_Lacks k hosts v.0, text_eq_iff k h)

  Lacks-dead_owners :
      (ss : List Session) (h : Text) (hosts : Map ℕ)
      → Lacks h hosts
      → Lacks h (dead_owners signal ss hosts).0
  unfolding dead_owners
  Lacks-dead_owners ss h [] v = tt
  Lacks-dead_owners ss h ((k, i) ∷ hosts) v = ground (arith, Lacks-dead_owners ss h hosts v.1)

  dead_owners-IsMap :
      (ss : List Session) (hosts : Map ℕ) → IsMap hosts → IsMap (dead_owners signal ss hosts).0
  unfolding dead_owners
  dead_owners-IsMap ss [] v = tt
  dead_owners-IsMap ss ((k, i) ∷ hosts) v =
      ground (arith, dead_owners-IsMap ss hosts v.1, Lacks-dead_owners ss k hosts v.0)

  pub Inv-reap : (m : Manager) → Inv m → Inv (reap_dead_owners signal m).0
  unfolding reap_dead_owners dead_owners
  Inv-reap m v =
      let left = (dead_owners signal m.sessions m.active).0 in
      Inv-cancel_all (dead_owners signal m.sessions m.active).1 (record m { active = left })
        (Inv-fewer m left (dead_owners-IsMap m.sessions m.active v.keys)
          (λ h i e. ground (arith, e, lookup-dead_owners m.sessions h m.active v.keys)) v)
