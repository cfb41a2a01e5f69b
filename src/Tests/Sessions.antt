-- ===== src/Tests/Sessions.antt =====
-- Sessions of one host that come and go.
use routeup.Base.{All, codes, lookup, ℕ, ◌+◌, ◌≡◌, inr, some, List, [], ◌∷◌, ◌++◌, arith}
use routeup.Server.Broker.{RouteLease}
use routeup.Server.Tunnels.{TunnelRegistry, run, Event, opened, closed}
use routeup.Server.Tunnels.Laws.{run-serves, IsOther}

-- A broker that counts its releases.
abbrev counted : RouteLease → ℕ → ℕ
counted lease n = n + 1

abbrev lease_at : ℕ → RouteLease
lease_at g = record { host = codes "blog.routeup.dev"; generation = g }

abbrev empty : TunnelRegistry counted
empty = record { routes = []; broker = 0 }

abbrev late_end : List (Event counted)
late_end = closed (lease_at 5) 1 ∷ []

abbrev first_session : List (Event counted)
first_session = opened (lease_at 5) 1 ∷ []

late_end-IsOther : All (IsOther counted (codes "blog.routeup.dev") 2) late_end
late_end-IsOther = (inr (ground arith), tt)

run-serves_example :
    lookup
      (codes "blog.routeup.dev")
      (run counted (late_end ++ opened (lease_at 6) 2 ∷ first_session) empty).routes
    ≡ some 2
run-serves_example = run-serves counted (lease_at 6) 2 late_end first_session empty late_end-IsOther
