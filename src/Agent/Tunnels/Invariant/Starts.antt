-- ===== src/Agent/Tunnels/Invariant/Starts.antt =====
-- A session's start keeps the invariant.
use routeup.Base.{
  ◌==◌, ==_iff, Bool-cases, length, get_elem?, ok, ℕ, ◌≡◌, refl, sym, subst, ◌∙◌, ◌≢◌, inl, inr,
  false, Option, none, some, List, [], ◌∷◌, ◌++◌, arith, ◌⊎◌,
}
use routeup.Agent.Tunnels.{Session, Manager, find_claim, reserve, ExposureClaim}
use routeup.Agent.Tunnels.Claims.{snoc-at, beyond_none, claim_eq_iff}
use routeup.Agent.Tunnels.Invariant.{Inv, Serves, Claims, BufferOk, Live}

at_snoc {κ} :
    (P : Option Session → Type κ) (s : Session) (ss : List Session) (j : ℕ)
    → (j ≡ length ss → P (some s))
    → P (get_elem? ss j)
    → P (get_elem? (ss ++ s ∷ []) j)
at_snoc P s ss j new old = elim (Bool-cases (j == length ss)) [
  | inl e ↦ subst P (sym (snoc-at s ss j ∙ rw e refl)) (new ((==_iff j (length ss)).0 e))
  | inr e ↦ subst P (sym (snoc-at s ss j ∙ rw e refl)) old
]

snoc-new : (s : Session) (ss : List Session) → get_elem? (ss ++ s ∷ []) (length ss) ≡ some s
snoc-new s [] = refl
snoc-new s (t ∷ ss) = snoc-new s ss

-- A session that Expose has just made.
pub record IsNew (s : Session) : Type 0 where
  pub host : s.host ≡ []
  pub done : s.done ≡ false
  pub granted : s.granted ≡ none

not_beyond :
    (ss : List Session) (j : ℕ) (P : Option Session → Type 0)
    → ¬ P none
    → P (get_elem? ss j)
    → j ≢ length ss
not_beyond ss j P n p e = n (subst P (beyond_none ss j (omega (arith, e))) p)

abbrev pub reserved : Session → Manager → Manager
reserved s m = record m {
  sessions = m.sessions ++ s ∷ [];
  claims = (s.claim, length m.sessions) ∷ m.claims;
}

reserve-reserved :
    (s : Session) (m m' : Manager) (i : ℕ)
    → reserve s m ≡ ok (m', i)
    → (find_claim s.claim m.claims ≡ none) × (m' ≡ reserved s m) × (i ≡ length m.sessions)
unfolding reserve
reserve-reserved s m m' i e = ground (arith, e)

reserved-claims :
    (s : Session) (m : Manager) (c : ExposureClaim) (j : ℕ)
    → find_claim c (reserved s m).claims ≡ some j
    → ((s.claim ≡ c) × (j ≡ length m.sessions)) ⊎ (find_claim c m.claims ≡ some j)
unfolding find_claim
reserved-claims s m c j e = ground (arith, claim_eq_iff s.claim c)

reserved-Live :
    (s : Session) (m : Manager) (j : ℕ) (o : Option Session)
    → find_claim s.claim m.claims ≡ none
    → Live m.claims j o
    → Live (reserved s m).claims j o
unfolding find_claim
reserved-Live s m j none q l = tt
reserved-Live s m j (some t) q l = λ d. ground (arith, l d, claim_eq_iff s.claim t.claim)

Inv-reserved :
    (s : Session) (m : Manager)
    → IsNew s
    → find_claim s.claim m.claims ≡ none
    → Inv m
    → Inv (reserved s m)
unfolding find_claim
Inv-reserved s m n q v = record {
  keys = v.keys;
  active_ok = λ h j e.
      at_snoc (Serves h) s m.sessions j
        (λ b. absurd (not_beyond m.sessions j (Serves h) (λ z. z) (v.active_ok h j e) b))
        (v.active_ok h j e);
  claims_ok = λ c j e. elim (reserved-claims s m c j e) [
    | inl (p, b) ↦ at_new c j p b
    | inr p ↦ at_old c j (v.claims_ok c j p)
  ];
  live_claim = λ j.
      at_snoc (Live (reserved s m).claims j) s m.sessions j
        (λ b. λ d. rw b (ground (arith, claim_eq_iff s.claim s.claim)))
        (reserved-Live s m j (get_elem? m.sessions j) q (v.live_claim j));
  buffer_ok = λ j. at_snoc BufferOk s m.sessions j (λ b. rw n.granted tt) (v.buffer_ok j);
}
  where
    at_old :
        (c : ExposureClaim) (j : ℕ)
        → Claims c (get_elem? m.sessions j)
        → Claims c (get_elem? (m.sessions ++ s ∷ []) j)
    at_old c j p =
        at_snoc (Claims c) s m.sessions j
          (λ b. absurd (not_beyond m.sessions j (Claims c) (λ z. z) p b)) p

    at_new :
        (c : ExposureClaim) (j : ℕ)
        → s.claim ≡ c
        → j ≡ length m.sessions
        → Claims c (get_elem? (m.sessions ++ s ∷ []) j)
    at_new c j p b =
        subst (λ k. Claims c (get_elem? (m.sessions ++ s ∷ []) k)) (sym b)
          (subst (Claims c) (sym (snoc-new s m.sessions)) (p, n.done))

pub Inv-reserve :
    (s : Session) (m m' : Manager) (i : ℕ) → IsNew s → reserve s m ≡ ok (m', i) → Inv m → Inv m'
Inv-reserve s m m' i n e v =
    let (q, p, b) = reserve-reserved s m m' i e in subst Inv (sym p) (Inv-reserved s m n q v)
