-- ===== src/Tests/Network.antt =====
-- Public requests, a client that connects again, and a command that restores its exposure.
use routeup.Base.{
  Text, length, replicate, All, ok, codes, lookup, ℕ, ◌≤◌, ◌≡◌, refl, ◌≢◌, true, false, Option,
  none, some, List, [], ◌∷◌, arith, text_eq,
}
use routeup.Strings.{split, join, to_lower, has_prefix, has_suffix}
use routeup.Tests.{plain}
use routeup.Tests.Claims.{three}
use routeup.Tests.Exposures.{request}
use routeup.Server.Limiter.{new_multi_limiter, allow}
use routeup.Server.Ingress.{Ingress, OutcomeCounts, Written, header, body, serve_ingress}
use routeup.Server.Ingress.Metered.{Agree, Recounted, serve_ingress-Recounted}
use routeup.Server.Ingress.Requests.{serve_ingress-Dispatched}
use routeup.Tunnel.Client.{Attempt, transient, run, HandshakeMessage, accept_reply}
use routeup.Tunnel.Client.Backoff.{run-waits, nominal}
use routeup.Tunnel.Client.Hosts.{accept_reply-host, IsHostLabel}
use routeup.Agentctl.Reconcile.{
  DesiredState, Status, got, Round, expose, reconcile_desired, Tick, maintain, round_status,
}
use routeup.Agentctl.Reconcile.Backoff.{Bounded, maintain-Bounded}
use routeup.Agentctl.Reconcile.Rounds.{InPlace, reconcile_desired-InPlace}

abbrev no_counts : OutcomeCounts
no_counts = record {
  by_class = replicate 6 0;
  duration = replicate 11 0;
  duration_nsec = 0;
  count = 0;
}

no_counts-Agree : Agree no_counts
no_counts-Agree = record {
  classes = refl;
  classed = refl;
  buckets = refl;
  cumulative = ground arith;
}

abbrev blog_host : Text
blog_host = codes "blog.x.dev"

abbrev ingress : Ingress three
ingress = record {
  routes = (blog_host, 4) ∷ [];
  request_limiter = new_multi_limiter three false;
  metrics = record {
    in_flight = 2;
    of_forwarded = no_counts;
    of_no_tunnel = no_counts;
    rate_limited = 0;
  };
}

abbrev no_port : Text → Option Text
no_port h = none

abbrev proxied : ℕ → List Written
proxied session = header 200 ∷ body ∷ []

serve_ingress-Dispatched_example :
    (lookup blog_host ingress.routes ≡ some 4)
    × ((allow three blog_host 7 ingress.request_limiter).1 ≡ true)
unfolding serve_ingress lookup routeup.Base.text_eq routeup.Strings.to_lower allow new_multi_limiter
serve_ingress-Dispatched_example =
    serve_ingress-Dispatched three plain no_port proxied 7 1 (codes "Blog.x.dev") ingress

serve_ingress-Recounted_example :
    Recounted ingress.metrics
      (serve_ingress three plain no_port proxied 7 1 (codes "Blog.x.dev") ingress).server.metrics
serve_ingress-Recounted_example =
    serve_ingress-Recounted three plain no_port proxied 7 1 (codes "Blog.x.dev") ingress
      no_counts-Agree no_counts-Agree

abbrev dropped : Attempt
dropped = record { outcome = transient; done_after = false; done_in_wait = false }

abbrev attempts : List Attempt
attempts = replicate 8 dropped

run-waits_example : 30000 ≡ nominal 7
unfolding run
run-waits_example = run-waits attempts 7 30000 refl

abbrev reply : HandshakeMessage
reply = record { type = codes "claim_ok"; granted = blog_host; error = [] }

reply_accepted : accept_reply reply ≡ ok blog_host
unfolding accept_reply routeup.Base.text_eq routeup.Strings.has_prefix routeup.Strings.has_suffix
    split
reply_accepted = refl

accept_reply-host_example :
    (reply.type ≡ codes "claim_ok")
    × (blog_host ≡ reply.granted)
    × (blog_host ≢ [])
    × (length blog_host ≤ 253)
    × All IsHostLabel (split b'.' blog_host)
    × (join b'.' (split b'.' blog_host) ≡ blog_host)
accept_reply-host_example = accept_reply-host reply blog_host reply_accepted

abbrev desired : DesiredState
desired = record { claim = none; exposure = some request; public_host = blog_host }

abbrev restarted : Round
restarted = record {
  done = false;
  status = got (record { boot_id = codes "b2"; exposures = [] });
  done_then = false;
  ensured = true;
  restarted_status = none;
  registers = true;
  exposes = some blog_host;
}

abbrev status_now : Status
status_now = record { boot_id = codes "b2"; exposures = [] }

in_time :
    reconcile_desired desired [] restarted
    ≡ record { boot_id = codes "b2"; exposure_failed = false; calls = expose request ∷ [] }
unfolding reconcile_desired routeup.Base.text_eq
in_time = refl

reconcile_desired-InPlace_example :
    InPlace desired request restarted status_now [] (reconcile_desired desired [] restarted).calls
unfolding routeup.Agentctl.Reconcile.round_status reconcile_desired routeup.Base.text_eq
reconcile_desired-InPlace_example =
    reconcile_desired-InPlace desired request [] restarted status_now refl refl refl refl refl

abbrev failing : Round
failing = record restarted { exposes = none }

abbrev two_ticks : List Tick
two_ticks =
    record { now = 2000; after = 2010; round = failing }
    ∷ record { now = 4010; after = 4020; round = failing }
    ∷ []

maintain-Bounded_example : Bounded 4020 (maintain desired 5 failing two_ticks)
maintain-Bounded_example = maintain-Bounded desired 5 failing two_ticks (ground arith)
