-- ===== src/Proxy/Laws.antt =====
-- Which requests reach an upstream, which one, and the status that the client gets.
use routeup.Base.{
  Text, Bool-cases, Option-cases, All, In, pos, ◌≡◌, refl, subst, inl, inr, true, none, some, List,
  [], ◌∷◌, Option, arith, codes, text_eq_iff, ◌≢◌, ◌++◌,
}
use routeup.Strings.Laws.{cut_suffix-eq_some}
use routeup.Strings.{Unicode, to_lower, cut_suffix}
use routeup.Route.Target.{Target, match_target, target_path_matches, rooted}
use routeup.Route.Target.Match.{match_target-longest, Covers, Matching}
use routeup.Route.Pattern.{path_allowed}
use routeup.Route.Name.{route_name_from_host}
use routeup.Logs.Entry.{Entry}
use routeup.Agent.Registry.{Routing, Registry, lookup_targets}
use routeup.Proxy.{
  Request, Outgoing, Network, Outcome, Timing, begun, turned_down, rewrite, forward, serve_targets,
  strip_port, served, local_entry, local_handler,
}

-- The request was sent to a target that may serve it: one of the targets, whose path matches, and
-- matches no shorter than any other's; with the host that the client gave.
pub record SentTo (routing : Routing) (r : Request) (out : Outgoing) : Type 0 where
  pub target : Target
  pub listed : In target routing.targets
  pub matches : target_path_matches target.path (rooted r.path) ≡ true
  pub longest : All (λ t. Covers (rooted r.path) t (some target)) routing.targets
  pub port : out.port ≡ target.port
  pub host : out.host ≡ r.host

-- What the client and the upstream see of a request.
abbrev pub Guarded : Unicode → Routing → List Text → Request → Outcome → Type 0
Guarded u routing exposed r o = elim o.forwarded [
  | none ↦ o.writer.passed ≡ pos 404 ∷ []
  | some out ↦ (path_allowed u exposed r.path r.escaped ≡ true) × SentTo routing r out
]

abbrev Sends : Routing → Request → Option Outgoing → Type 0
Sends routing r none = Unit
Sends routing r (some out) = SentTo routing r out

sends :
    (u : Unicode) (routing : Routing) (exposed : List Text) (r : Request) (o : Outcome)
    → Guarded u routing exposed r o
    → Sends routing r o.forwarded
sends u routing exposed r o g = elim (Option-cases o.forwarded) [
  | inl q ↦ rw q tt
  | inr (out, q) ↦ rw q (rw q at g).1
]

local_host_of :
    (u : Unicode) (host name : Text)
    → route_name_from_host u host ≡ some name
    → (to_lower u host ≡ name ++ codes ".localhost") × (name ≢ [])
unfolding route_name_from_host
local_host_of u host name h =
    elim (Option-cases (cut_suffix (codes ".localhost") (to_lower u host))) [
      | inl q ↦ absurd (ground (arith, h, q))
      | inr (rest, q) ↦
          let kept : rest ≡ name = ground (arith, h, q) in
          (
            subst (λ t. to_lower u host ≡ t ++ codes ".localhost") kept
                (cut_suffix-eq_some (codes ".localhost") (to_lower u host) rest q),
            ground (arith, h, q, text_eq_iff rest []),
          )
    ]

module _ (u : Unicode) (net : Network) where
  matched-SentTo :
      (routing : Routing) (r : Request) (t : Target) (e : Entry)
      → match_target routing.targets r.path ≡ some t
      → SentTo routing r (rewrite u net e.source t r)
  unfolding rewrite
  matched-SentTo routing r t e q =
      let (m, c) = match_target-longest routing.targets r.path in
      let n = subst (Matching (rooted r.path) routing.targets) q m in
      record {
        target = t;
        listed = n.0;
        matches = n.1;
        longest = subst (λ o. All (λ s. Covers (rooted r.path) s o) routing.targets) q c;
        port = refl;
        host = refl;
      }

  -- A request is sent upstream only where its path is exposed, and then to the port of a target with
  -- the longest path that matches; any other request is answered by 404, once, and nothing is sent.
  pub serve_targets-Guarded :
      (routing : Routing) (exposed : List Text) (when : Timing) (r : Request) (e : Entry)
      → Guarded u routing exposed r (serve_targets u net routing exposed when r e)
  unfolding serve_targets turned_down forward
  serve_targets-Guarded routing exposed when r e =
      elim (Bool-cases (path_allowed u exposed r.path r.escaped)) [
        | inr b ↦ rw b refl
        | inl b ↦ elim (Option-cases (match_target routing.targets r.path)) [
          | inl q ↦ rw (b, q) refl
          | inr (t, q) ↦ rw (b, q) (b, matched-SentTo routing r t (begun when r e) q)
        ]
      ]

  -- The request that New's handler sends upstream comes from a registered claim: the host, without
  -- its port and in lower case, is a nonempty name and ".localhost", the registry has a claim of this
  -- name, and the upstream is one of this claim's targets, the one with the longest matching path.
  pub local_handler-SentTo :
      (claims : Registry) (when : Timing) (r : Request) (o : Outcome) (out : Outgoing)
      → local_handler u net claims when r ≡ served o
      → o.forwarded ≡ some out
      → (name : Text) × (routing : Routing) × (to_lower u (strip_port u net r.host)
          ≡ name ++ codes ".localhost")
        × (name ≢ [])
        × (lookup_targets name claims ≡ some routing)
        × SentTo routing r out
  unfolding local_handler
  local_handler-SentTo claims when r o out h f =
      elim (Option-cases (route_name_from_host u (strip_port u net r.host))) [
        | inl q ↦ absurd (ground (arith, h, q))
        | inr (name, q) ↦ elim (Option-cases (lookup_targets name claims)) [
          | inl p ↦ absurd (ground (arith, h, q, p))
          | inr (routing, p) ↦
              let same : serve_targets u net routing [] when r
                    (local_entry name (strip_port u net r.host))
                  ≡ o =
                ground (arith, h, q, p) in
              (
                name,
                routing,
                (local_host_of u _ name q).0,
                (local_host_of u _ name q).1,
                p,
                (subst (λ b. Sends routing r b) f
                    (sends u routing [] r o (
                      subst (λ x. Guarded u routing [] r x) same
                        (serve_targets-Guarded routing [] when r
                          (local_entry name (strip_port u net r.host)))))),
              )
        ]
      ]
