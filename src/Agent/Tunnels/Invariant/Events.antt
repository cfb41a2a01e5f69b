-- ===== src/Agent/Tunnels/Invariant/Events.antt =====
-- The sessions' events keep the invariant.
use routeup.Base.{
  Text, text_eq_iff, refl, [], arith, Bool-cases, Option-cases, text_eq, ℕ, ◌≡◌, sym, ◌∙◌, ◌≢◌, ◌⊎◌,
  inl, inr, true, Option, none, some,
}
use routeup.Agent.Registry.{ExposureState, connected, reconnecting}
use routeup.Agent.Tunnels.{
  Session, cancel_session, with_state, Manager, change, set_session_state, offer, granted_session,
  on_granted, on_disconnected,
}
use routeup.Agent.Tunnels.Steps.{give_up}
use routeup.Agent.Tunnels.Invariant.{Keeps, Buffered, Inv, Inv-change}

cancel_session-Keeps : (s : Session) → Keeps s (cancel_session s)
cancel_session-Keeps s = record { claim = refl; done = refl; host = λ n. refl; buffer = λ b. b }

Buffered-kept :
    (s t : Session) (o : Option Text)
    → (s.host ≢ [] → t.host ≡ s.host)
    → Buffered s o
    → Buffered t o
Buffered-kept s t none k b = tt
Buffered-kept s t (some h) k (inl e) = inl e
Buffered-kept s t (some h) k (inr e) = elim (Bool-cases (text_eq s.host [])) [
  | inl q ↦ inl (sym e ∙ (text_eq_iff s.host []).0 q)
  | inr q ↦ inr (ground (arith, text_eq_iff s.host []))
]

with_state-host :
    (host : Text) (state : ExposureState) (s : Session)
    → s.host ≢ []
    → (with_state host state s).0.host ≡ s.host
with_state-host host state s n = ground (arith, text_eq_iff s.host [], text_eq_iff s.host host)

with_state-granted :
    (host : Text) (state : ExposureState) (s : Session)
    → (with_state host state s).0.granted ≡ s.granted
with_state-granted host state s = ground arith

with_state-Keeps :
    (host : Text) (state : ExposureState) (s : Session) → Keeps s (with_state host state s).0
with_state-Keeps host state s = record {
  claim = ground arith;
  done = ground arith;
  host = with_state-host host state s;
  buffer = λ b.
      rw (with_state-granted host state s)
        (Buffered-kept s (with_state host state s).0 s.granted (with_state-host host state s) b);
}

-- A session whose state was set for a host has that host.
with_state-in_order :
    (host : Text) (state : ExposureState) (s : Session)
    → (with_state host state s).1 ≡ true
    → (host ≡ []) ⊎ ((with_state host state s).0.host ≡ host)
with_state-in_order host state s e = elim (Bool-cases (text_eq host [])) [
  | inl q ↦ inl ((text_eq_iff host []).0 q)
  | inr q ↦ inr (ground arith)
]

offer-Keeps : (host : Text) (s : Session) → (host ≡ []) ⊎ (s.host ≡ host) → Keeps s (offer host s)
offer-Keeps host s q = elim (Option-cases s.granted) [
  | inl e ↦ record {
    claim = rw e refl;
    done = rw e refl;
    host = λ n. rw e refl;
    buffer = λ b. rw e q;
  }
  | inr (h, e) ↦ record {
    claim = rw e refl;
    done = rw e refl;
    host = λ n. rw e refl;
    buffer = λ b. rw e (rw e at b);
  }
]

Keeps-trans : (s t r : Session) → Keeps s t → Keeps t r → Keeps s r
Keeps-trans s t r k l = record {
  claim = l.claim ∙ k.claim;
  done = l.done ∙ k.done;
  host = λ n. l.host (λ z. n (sym (k.host n) ∙ z)) ∙ k.host n;
  buffer = λ b. l.buffer (k.buffer b);
}

granted_session-Keeps : (host : Text) (s : Session) → Keeps s (granted_session host s)
granted_session-Keeps host s = elim (Bool-cases (with_state host connected s).1) [
  | inl e ↦ rw e (
      Keeps-trans s (with_state host connected s).0 (offer host (with_state host connected s).0)
        (with_state-Keeps host connected s)
        (offer-Keeps host (with_state host connected s).0 (with_state-in_order host connected s e)))
  | inr e ↦ rw e (with_state-Keeps host connected s)
]

received-Keeps : (s : Session) → Keeps s (record s { granted = none })
received-Keeps s = record { claim = refl; done = refl; host = λ n. refl; buffer = λ b. tt }

pub Inv-cancel : (i : ℕ) (m : Manager) → Inv m → Inv (change i cancel_session m)
Inv-cancel i m v = Inv-change i cancel_session m cancel_session-Keeps v

pub Inv-received :
    (i : ℕ) (m : Manager) → Inv m → Inv (change i (λ s. record s { granted = none }) m)
Inv-received i m v = Inv-change i (λ s. record s { granted = none }) m received-Keeps v

pub Inv-on_granted : (i : ℕ) (host : Text) (m : Manager) → Inv m → Inv (on_granted i host m)
unfolding on_granted
Inv-on_granted i host m v = Inv-change i (granted_session host) m (granted_session-Keeps host) v

pub Inv-on_disconnected : (i : ℕ) (m : Manager) → Inv m → Inv (on_disconnected i m)
unfolding on_disconnected set_session_state
Inv-on_disconnected i m v =
    Inv-change i (λ s. (with_state [] reconnecting s).0) m (with_state-Keeps [] reconnecting) v

pub Inv-give_up : (i : ℕ) (m : Manager) → Inv m → Inv (give_up i m)
unfolding give_up
Inv-give_up i m v = Inv-cancel i m v
