-- ===== src/Agent/Tunnels/Invariant/Ends.antt =====
-- A session's end keeps the invariant.
use mathlib.Core.Option
use routeup.Base.{
  ◌==◌, ==_iff, Bool-cases, get_elem?, ℕ, ◌≡◌, refl, sym, subst, ◌∙◌, ◌≢◌, inl, inr, none, some,
  List, [], arith, Text, lookup, Bool, true, text_eq_iff, lookup-delete, if◌then◌else◌,
  Option-cases, text_eq, delete-IsMap, not, ◌&&◌, Option,
}
use routeup.Agent.Tunnels.{
  Session, Manager, find_claim, ExposureClaim, finish_found, ClaimMap, update_session, is_number,
  finish,
}
use routeup.Agent.Tunnels.Claims.{claim_eq_iff, find_claim-drop, update_session-at}
use routeup.Agent.Tunnels.Invariant.{Inv, Serves, Claims, BufferOk, Live, at_change}

at_ne {κ} :
    (P : Option Session → Type κ) (i j : ℕ) (f : Session → Session) (ss : List Session)
    → i ≢ j
    → P (get_elem? ss j)
    → P (get_elem? (update_session i f ss) j)
at_ne P i j f ss n p = subst P (sym (update_session-at i j f ss ∙ ground (arith, ==_iff i j))) p

abbrev pub ended : Bool → Session → Session
ended failed t = record t { done = true; failed = failed; cancelled = true }

module _ (m : Manager) (v : Inv m) (s : Session) (i : ℕ) (q : get_elem? m.sessions i ≡ some s) where
  ended-active :
      (failed : Bool) (h : Text) (j : ℕ)
      → lookup h (finish_found i failed (some s) m).active ≡ some j
      → (lookup h m.active ≡ some j) × (i ≢ j)
  unfolding finish_found
  ended-active failed h j e = (old, λ b. gone b (serves b old))
    where
      old : lookup h m.active ≡ some j
      old = ground (arith, e, lookup-delete s.host h m.active)

      serves : i ≡ j → lookup h m.active ≡ some j → Serves h (some s)
      serves b o = subst (Serves h) q (v.active_ok h i (rw b o))

      gone : i ≡ j → ¬ Serves h (some s)
      gone b (n, p, d) = ground (
        arith,
        e,
        b,
        p,
        n,
        ==_iff j i,
        lookup-delete s.host h m.active,
        text_eq_iff s.host h,
        text_eq_iff s.host [],
      )

  ended-claims :
      (failed : Bool) (c : ExposureClaim) (j : ℕ)
      → find_claim c (finish_found i failed (some s) m).claims ≡ some j
      → (find_claim c m.claims ≡ some j) × (i ≢ j)
  unfolding finish_found
  ended-claims failed c j e = (old, λ b. gone b (holds b old))
    where
      old : find_claim c m.claims ≡ some j
      old = ground (arith, e, find_claim-drop s.claim c m.claims)

      holds : i ≡ j → find_claim c m.claims ≡ some j → Claims c (some s)
      holds b o = subst (Claims c) q (v.claims_ok c i (rw b o))

      gone : i ≡ j → ¬ Claims c (some s)
      gone b (p, d) =
          ground (arith, e, b, p, find_claim-drop s.claim c m.claims, claim_eq_iff s.claim c)

  ended-live :
      (failed : Bool) (j : ℕ) (t : Session)
      → i ≢ j
      → find_claim t.claim m.claims ≡ some j
      → find_claim t.claim (finish_found i failed (some s) m).claims ≡ some j
  unfolding finish_found
  ended-live failed j t n e =
      ground (arith, find_claim-drop s.claim t.claim m.claims, claim_eq_iff s.claim t.claim)

  ended-Live :
      (failed : Bool) (j : ℕ) (o : Option Session)
      → i ≢ j
      → Live m.claims j o
      → Live (finish_found i failed (some s) m).claims j o
  ended-Live failed j none n l = tt
  ended-Live failed j (some t) n l = λ d. ended-live failed j t n (l d)

  done_Live :
      (failed : Bool) (claims : ClaimMap) (j : ℕ)
      → Live claims j (Option.map (ended failed) (some s))
  done_Live failed claims j = λ d. cc

  Inv-finish_found : (failed : Bool) → Inv (finish_found i failed (some s) m)
  unfolding finish_found
  Inv-finish_found failed = record {
    keys = elim (Bool-cases (not (text_eq s.host []) && is_number i (lookup s.host m.active))) [
      | inl e ↦ rw e (delete-IsMap s.host m.active v.keys)
      | inr e ↦ rw e v.keys
    ];
    active_ok = λ h j e.
        let (o, n) = ended-active failed h j e in
        at_ne (Serves h) i j (ended failed) m.sessions n (v.active_ok h j o);
    claims_ok = λ c j e.
        let (o, n) = ended-claims failed c j e in
        at_ne (Claims c) i j (ended failed) m.sessions n (v.claims_ok c j o);
    live_claim = λ j. elim (Bool-cases (i == j)) [
      | inl b ↦ ended_self j b
      | inr b ↦
          at_ne (Live (finish_found i failed (some s) m).claims j) i j (ended failed) m.sessions
            (ground (arith, b))
            (ended-Live failed j (get_elem? m.sessions j) (ground (arith, b)) (v.live_claim j))
    ];
    buffer_ok = λ j.
        at_change BufferOk i j (ended failed) m.sessions (ended-BufferOk failed _) (v.buffer_ok j);
  }
    where
      ended-BufferOk :
          (failed : Bool) (o : Option Session) → BufferOk o → BufferOk (Option.map (ended failed) o)
      ended-BufferOk failed none b = tt
      ended-BufferOk failed (some t) b = b

      same :
          (j : ℕ)
          → (i == j) ≡ true
          → (if i == j
              then Option.map (ended failed) (get_elem? m.sessions j)
              else get_elem? m.sessions j)
            ≡ Option.map (ended failed) (some s)
      same j b = rw (b, ← (==_iff i j).0 b, q) refl

      ended_self :
          (j : ℕ)
          → (i == j) ≡ true
          → Live
              (finish_found i failed (some s) m).claims
              j
              (get_elem? (update_session i (ended failed) m.sessions) j)
      ended_self j b =
          subst (Live (finish_found i failed (some s) m).claims j)
            (sym (update_session-at i j (ended failed) m.sessions ∙ same j b))
            (done_Live failed _ j)

pub Inv-finish : (i : ℕ) (failed : Bool) (m : Manager) → Inv m → Inv (finish i failed m)
unfolding finish finish_found
Inv-finish i failed m v = elim (Option-cases (get_elem? m.sessions i)) [
  | inl e ↦ rw e v
  | inr (s, e) ↦ rw e (Inv-finish_found m v s i e failed)
]
