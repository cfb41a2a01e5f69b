-- ===== src/Tunnel/Client.antt =====
-- internal/tunnel/client.go, with its waits of timeouts.go, in milliseconds: the reconnect loop around
-- one session, and what the client makes of the server's reply. How a session went is an argument:
-- the transport, yamux and net/http stand behind it.
pub mod Backoff
pub mod Hosts
use routeup.Base.{
  Text, ltb, leb, ◌==◌, if◌then◌else◌, length, Result, ok, fail_if, ◌>>◌, codes, text_eq, ℕ, ◌+◌,
  ◌*◌, Bool, true, false, not, ◌&&◌, ◌||◌, List, [], ◌∷◌,
}
use routeup.Strings.{split, has_prefix, has_suffix}

abbrev pub base_backoff : ℕ
base_backoff = 500

abbrev pub max_backoff : ℕ
max_backoff = 30000

-- How connectAndServe ended: with a PermanentError, or with any other error.
pub data SessionEnd : Type 0 where
  transient permanent : SessionEnd

-- One round of Run's loop: whether the context was done after the session, and in the wait.
pub record Attempt : Type 0 where
  pub outcome : SessionEnd
  pub done_after : Bool
  pub done_in_wait : Bool

pub data RunEnd : Type 0 where
  running cancelled rejected : RunEnd

-- What Run did: the waits that it began, how often it called onDisconnected, and how it ended.
pub record Ran : Type 0 where
  pub waits : List ℕ
  pub disconnected : ℕ
  pub ending : RunEnd

-- The doubling of the backoff, up to its bound.
abbrev pub next_backoff : ℕ → ℕ
next_backoff b = if ltb max_backoff (b * 2) then max_backoff else b * 2

-- Run's loop, with a backoff.
unfoldable pub run_from : ℕ → List Attempt → Ran
run_from b [] = record { waits = []; disconnected = 0; ending = running }
run_from b (a ∷ more) =
    let rest = run_from (next_backoff b) more in
    if a.done_after
    then record { waits = []; disconnected = 0; ending = cancelled }
    else elim a.outcome [
      | permanent ↦ record { waits = []; disconnected = 1; ending = rejected }
      | transient ↦
          if a.done_in_wait
          then record { waits = b ∷ []; disconnected = 1; ending = cancelled }
          else record {
            waits = b ∷ rest.waits;
            disconnected = rest.disconnected + 1;
            ending = rest.ending;
          }
    ]

-- func (c *Client) Run
unfoldable pub run : List Attempt → Ran
unfolding run_from
run attempts = run_from base_backoff attempts

abbrev pub first_byte : Text → ℕ
first_byte [] = 0
first_byte (c ∷ s) = c

abbrev pub last_byte : Text → ℕ
last_byte [] = 0
last_byte (c ∷ []) = c
last_byte (c ∷ d ∷ s) = last_byte (d ∷ s)

abbrev pub host_byte : ℕ → Bool
host_byte r =
    leb b'a' r && leb r b'z'
    || (leb b'A' r && leb r b'Z' || (leb b'0' r && leb r b'9' || r == b'-'))

-- The inner loop of validGrantedHost; a rune that is not ASCII starts with no such byte.
unfoldable pub host_bytes : Text → Bool
host_bytes [] = true
host_bytes (r ∷ label) = let rest = host_bytes label in if host_byte r then rest else false

-- The outer loop of validGrantedHost.
unfoldable pub host_labels : List Text → Bool
unfolding host_bytes
host_labels [] = true
host_labels (label ∷ labels) =
    let rest = host_labels labels in
    if length label == 0
      || (ltb 63 (length label) || (first_byte label == b'-' || last_byte label == b'-'))
    then false
    else if host_bytes label
    then rest
    else false

-- func validGrantedHost
unfoldable pub valid_granted_host : Text → Bool
unfolding host_labels
valid_granted_host host =
    if text_eq host []
      || (ltb 253 (length host) || (has_prefix (b'.' ∷ []) host || has_suffix (b'.' ∷ []) host))
    then false
    else host_labels (split b'.' host)

-- type HandshakeMessage, as a reply
pub record HandshakeMessage : Type 0 where
  pub type : Text
  pub granted : Text
  pub error : Text

pub data PermanentError : Type 0 where
  claim_rejected : Text → PermanentError
  invalid_host : PermanentError

-- handshake's test of the reply
unfoldable pub accept_reply : HandshakeMessage → Result PermanentError Text
unfolding valid_granted_host
accept_reply reply = do
  fail_if (not (text_eq reply.type (codes "claim_ok"))) (claim_rejected reply.error)
  fail_if (not (valid_granted_host reply.granted)) invalid_host
  ok reply.granted
