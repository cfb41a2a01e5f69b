-- ===== src/Agent/Tunnels/Invariant.antt =====
-- What holds between the manager's sessions and its two maps, and the changes of one session that
-- leave it so.
pub mod Events
pub mod Starts
pub mod Ends
pub mod Hosts
use mathlib.Core.Option
use routeup.Base.{
  Text, get_elem?, ◌==◌, Bool-cases, lookup, IsMap, ℕ, ◌≡◌, refl, sym, subst, ◌∙◌, ◌≢◌, ◌⊎◌, inl,
  inr, false, Option, none, some, List, [], map, Map,
}
use routeup.Agent.Tunnels.{
  Session, update_session, ExposureClaim, Manager, new_manager, find_claim, ClaimMap, change,
}
use routeup.Agent.Tunnels.Claims.{update_session-at}

-- The session serves the host: it is not done, and the host is its own.
abbrev pub Serves : Text → Option Session → Type 0
Serves h none = ⊥
Serves h (some s) = (h ≢ []) × (s.host ≡ h) × (s.done ≡ false)

-- The session holds the claim, and is not done.
abbrev pub Claims : ExposureClaim → Option Session → Type 0
Claims c none = ⊥
Claims c (some s) = (s.claim ≡ c) × (s.done ≡ false)

-- The host in the buffer is empty, or the session's.
abbrev pub Buffered : Session → Option Text → Type 0
Buffered s none = Unit
Buffered s (some h) = (h ≡ []) ⊎ (s.host ≡ h)

abbrev pub BufferOk : Option Session → Type 0
BufferOk none = Unit
BufferOk (some s) = Buffered s s.granted

-- A session that is not done holds its claim.
abbrev pub Live : ClaimMap → ℕ → Option Session → Type 0
Live claims i none = Unit
Live claims i (some s) = s.done ≡ false → find_claim s.claim claims ≡ some i

pub record Inv (m : Manager) : Type 0 where
  pub keys : IsMap m.active
  pub active_ok :
      (h : Text) (i : ℕ) → lookup h m.active ≡ some i → Serves h (get_elem? m.sessions i)
  pub claims_ok :
      (c : ExposureClaim) (i : ℕ)
      → find_claim c m.claims ≡ some i
      → Claims c (get_elem? m.sessions i)
  pub live_claim : (i : ℕ) → Live m.claims i (get_elem? m.sessions i)
  pub buffer_ok : (i : ℕ) → BufferOk (get_elem? m.sessions i)

pub new_manager-Inv : Inv new_manager
unfolding new_manager lookup find_claim
new_manager-Inv = record {
  keys = tt;
  active_ok = λ h i e. cc;
  claims_ok = λ c i e. cc;
  live_claim = λ i. tt;
  buffer_ok = λ i. tt;
}

-- A change that keeps the claim, the end, and the host once there is one.
pub record Keeps (s t : Session) : Type 0 where
  pub claim : t.claim ≡ s.claim
  pub done : t.done ≡ s.done
  pub host : s.host ≢ [] → t.host ≡ s.host
  pub buffer : Buffered s s.granted → Buffered t t.granted

Serves-Keeps :
    (f : Session → Session) (h : Text) (o : Option Session)
    → ((s : Session) → Keeps s (f s))
    → Serves h o
    → Serves h (Option.map f o)
Serves-Keeps f h none k v = v
Serves-Keeps f h (some s) k (n, e, d) = (n, (k s).host (λ z. n (sym e ∙ z)) ∙ e, (k s).done ∙ d)

Claims-Keeps :
    (f : Session → Session) (c : ExposureClaim) (o : Option Session)
    → ((s : Session) → Keeps s (f s))
    → Claims c o
    → Claims c (Option.map f o)
Claims-Keeps f c none k v = v
Claims-Keeps f c (some s) k (e, d) = ((k s).claim ∙ e, (k s).done ∙ d)

BufferOk-Keeps :
    (f : Session → Session) (o : Option Session)
    → ((s : Session) → Keeps s (f s))
    → BufferOk o
    → BufferOk (Option.map f o)
BufferOk-Keeps f none k v = v
BufferOk-Keeps f (some s) k v = (k s).buffer v

Live-Keeps :
    (f : Session → Session) (claims : ClaimMap) (i : ℕ) (o : Option Session)
    → ((s : Session) → Keeps s (f s))
    → Live claims i o
    → Live claims i (Option.map f o)
Live-Keeps f claims i none k v = v
Live-Keeps f claims i (some s) k v = λ d. rw (k s).claim (v (sym (k s).done ∙ d))

-- A predicate of the session with a number that the change keeps.
pub at_change {κ} :
    (P : Option Session → Type κ) (i j : ℕ) (f : Session → Session) (ss : List Session)
    → (P (get_elem? ss j) → P (Option.map f (get_elem? ss j)))
    → P (get_elem? ss j)
    → P (get_elem? (update_session i f ss) j)
at_change P i j f ss g p = elim (Bool-cases (i == j)) [
  | inl e ↦ subst P (sym (update_session-at i j f ss ∙ rw e refl)) (g p)
  | inr e ↦ subst P (sym (update_session-at i j f ss ∙ rw e refl)) p
]

pub Inv-change :
    (i : ℕ) (f : Session → Session) (m : Manager)
    → ((s : Session) → Keeps s (f s))
    → Inv m
    → Inv (change i f m)
Inv-change i f m k v = record {
  keys = v.keys;
  active_ok =
      λ h j e. at_change (Serves h) i j f m.sessions (Serves-Keeps f h _ k) (v.active_ok h j e);
  claims_ok =
      λ c j e. at_change (Claims c) i j f m.sessions (Claims-Keeps f c _ k) (v.claims_ok c j e);
  live_claim = λ j.
      at_change (Live m.claims j) i j f m.sessions (Live-Keeps f m.claims j _ k) (v.live_claim j);
  buffer_ok = λ j. at_change BufferOk i j f m.sessions (BufferOk-Keeps f _ k) (v.buffer_ok j);
}

-- Fewer hosts are active.
pub Inv-fewer :
    (m : Manager) (hosts : Map ℕ)
    → IsMap hosts
    → ((h : Text) (i : ℕ) → lookup h hosts ≡ some i → lookup h m.active ≡ some i)
    → Inv m
    → Inv (record m { active = hosts })
Inv-fewer m hosts keys fewer v = record {
  keys = keys;
  active_ok = λ h i e. v.active_ok h i (fewer h i e);
  claims_ok = v.claims_ok;
  live_claim = v.live_claim;
  buffer_ok = v.buffer_ok;
}
