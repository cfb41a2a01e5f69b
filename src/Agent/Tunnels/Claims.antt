-- ===== src/Agent/Tunnels/Claims.antt =====
-- Laws of the map of claims and of the list of sessions.
use mathlib.Core.Option
use routeup.Base.{
  ◌==◌, if◌then◌else◌, length, get_elem?, text_eq_iff, ℕ, zero, suc, ◌≤◌, ◌≡◌, refl, ap, ◌↔◌, true,
  none, some, List, [], ◌∷◌, ◌++◌, arith,
}
use routeup.Agent.Tunnels.{
  Session, ExposureClaim, update_session, claim_eq, ClaimMap, find_claim, drop_claim,
}

pub claim_eq_iff : (a b : ExposureClaim) → (claim_eq a b ≡ true) ↔ (a ≡ b)
claim_eq_iff a b = ground (
  arith,
  text_eq_iff a.server b.server,
  text_eq_iff a.name b.name,
  text_eq_iff a.token_hash b.token_hash,
)

pub find_claim-drop :
    (c d : ExposureClaim) (m : ClaimMap)
    → find_claim d (drop_claim c m) ≡ (if claim_eq c d then none else find_claim d m)
unfolding find_claim drop_claim
find_claim-drop c d [] = ground arith
find_claim-drop c d ((b, i) ∷ m) =
    ground (arith, claim_eq_iff c d, claim_eq_iff b c, claim_eq_iff b d, find_claim-drop c d m)

pub update_session-at :
    (i j : ℕ) (f : Session → Session) (ss : List Session)
    → get_elem? (update_session i f ss) j
      ≡ (if i == j then Option.map f (get_elem? ss j) else get_elem? ss j)
unfolding update_session
update_session-at i j f [] = ground arith
update_session-at zero zero f (s ∷ ss) = refl
update_session-at zero (suc j) f (s ∷ ss) = ground arith
update_session-at (suc i) zero f (s ∷ ss) = ground arith
update_session-at (suc i) (suc j) f (s ∷ ss) = ground (arith, update_session-at i j f ss)

pub length-update_session :
    (i : ℕ) (f : Session → Session) (ss : List Session) → length (update_session i f ss) ≡ length ss
unfolding update_session
length-update_session i f [] = refl
length-update_session zero f (s ∷ ss) = refl
length-update_session (suc i) f (s ∷ ss) = ap suc (length-update_session i f ss)

pub snoc-at :
    (s : Session) (ss : List Session) (j : ℕ)
    → get_elem? (ss ++ s ∷ []) j ≡ (if j == length ss then some s else get_elem? ss j)
snoc-at s [] zero = refl
snoc-at s [] (suc j) = ground arith
snoc-at s (t ∷ ss) zero = ground arith
snoc-at s (t ∷ ss) (suc j) = ground (arith, snoc-at s ss j)

pub beyond_none : (ss : List Session) (j : ℕ) → length ss ≤ j → get_elem? ss j ≡ none
beyond_none [] j h = refl
beyond_none (s ∷ ss) zero h = absurd (omega (arith, h))
beyond_none (s ∷ ss) (suc j) h = beyond_none ss j (omega (arith, h))
