-- ===== src/Tunnel/Client/Hosts.antt =====
-- Which hosts the client takes from a server.
use routeup.Base.{
  Text, Bool-cases, length, All, ok, codes, text_eq_iff, ◌≤◌, ◌≡◌, ◌≢◌, inl, inr, true, List, [],
  ◌∷◌, arith,
}
use routeup.Strings.{split, join}
use routeup.Strings.Laws.{join-split}
use routeup.Tunnel.Client.{
  host_bytes, first_byte, last_byte, host_byte, host_labels, valid_granted_host, HandshakeMessage,
  accept_reply,
}

-- A label of a host: 1 to 63 letters, digits and hyphens, with no hyphen at an end.
pub record IsHostLabel (label : Text) : Type 0 where
  pub some_byte : 1 ≤ length label
  pub short : length label ≤ 63
  pub bytes : All (λ r. host_byte r ≡ true) label
  pub first : first_byte label ≢ b'-'
  pub last : last_byte label ≢ b'-'

host_bytes-All : (label : Text) → host_bytes label ≡ true → All (λ r. host_byte r ≡ true) label
unfolding host_bytes
host_bytes-All [] h = tt
host_bytes-All (r ∷ label) h = elim (Bool-cases (host_byte r)) [
  | inl e ↦ (e, host_bytes-All label (ground (arith, h, e)))
  | inr e ↦ absurd (ground (arith, h, e))
]

host_labels-IsHostLabel : (ls : List Text) → host_labels ls ≡ true → All IsHostLabel ls
unfolding host_labels
host_labels-IsHostLabel [] h = tt
host_labels-IsHostLabel (l ∷ ls) h = elim (Bool-cases (host_bytes l)) [
  | inr e ↦ absurd (ground (arith, h, e))
  | inl e ↦ (
    record {
      some_byte = ground (arith, h);
      short = ground (arith, h);
      bytes = host_bytes-All l e;
      first = ground (arith, h);
      last = ground (arith, h);
    },
    host_labels-IsHostLabel ls (ground (arith, h, e)),
  )
]

-- A host that the client accepts from the server's reply is the reply's, in a claim_ok; it has 1 to
-- 253 bytes, and it is labels with dots between them, each of 1 to 63 letters, digits and hyphens
-- with no hyphen at an end.
pub accept_reply-host :
    (reply : HandshakeMessage) (host : Text)
    → accept_reply reply ≡ ok host
    → (reply.type ≡ codes "claim_ok")
      × (host ≡ reply.granted)
      × (host ≢ [])
      × (length host ≤ 253)
      × All IsHostLabel (split b'.' host)
      × (join b'.' (split b'.' host) ≡ host)
unfolding accept_reply valid_granted_host
accept_reply-host reply host h =
    let same : host ≡ reply.granted = ground (arith, h) in
    (
      ground (arith, h, text_eq_iff reply.type (codes "claim_ok")),
      same,
      ground (arith, h, text_eq_iff reply.granted []),
      ground (arith, h),
      host_labels-IsHostLabel (split b'.' host) (ground (arith, h)),
      join-split b'.' host,
    )
