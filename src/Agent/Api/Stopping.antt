-- ===== src/Agent/Api/Stopping.antt =====
-- The wait for an owner that has been told to stop.
use routeup.Base.{Text, any, ℤ, ◌≡◌, Bool, true, false, List, [], ◌∷◌, arith}
use routeup.Agent.Api.{
  given_up, Waited, client_gone, acknowledged, ticked, stopped, await_release, await_stop,
}

-- A look at the registry at which the owner has given the name up.
abbrev pub shows_release : Text → ℤ → Waited → Bool
shows_release name pid client_gone = false
shows_release name pid (acknowledged reg) = given_up name pid reg
shows_release name pid (ticked reg) = given_up name pid reg

abbrev pub tick_shows : Text → ℤ → Waited → Bool
tick_shows name pid client_gone = false
tick_shows name pid (acknowledged reg) = false
tick_shows name pid (ticked reg) = given_up name pid reg

abbrev pub is_gone : Waited → Bool
is_gone client_gone = true
is_gone (acknowledged reg) = false
is_gone (ticked reg) = false

await_release-shows :
    (name : Text) (pid : ℤ) (ws : List Waited)
    → await_release name pid ws ≡ stopped
    → any (shows_release name pid) ws ≡ true
unfolding await_release
await_release-shows name pid [] h = cc
await_release-shows name pid (client_gone ∷ ws) h = cc
await_release-shows name pid (acknowledged reg ∷ ws) h =
    ground (arith, h, await_release-shows name pid ws)
await_release-shows name pid (ticked reg ∷ ws) h =
    ground (arith, h, await_release-shows name pid ws)

-- The client is told that the owner has stopped only if the registry, at some look, had no claim of
-- the name by that owner any more.
pub await_stop-shows :
    (name : Text) (pid : ℤ) (ws : List Waited)
    → await_stop name pid ws ≡ stopped
    → any (shows_release name pid) ws ≡ true
unfolding await_stop
await_stop-shows name pid [] h = cc
await_stop-shows name pid (client_gone ∷ ws) h = cc
await_stop-shows name pid (acknowledged reg ∷ ws) h =
    ground (arith, h, await_release-shows name pid ws)
await_stop-shows name pid (ticked reg ∷ ws) h = ground (arith, h, await_stop-shows name pid ws)

await_release-stopped :
    (name : Text) (pid : ℤ) (ws : List Waited)
    → any (tick_shows name pid) ws ≡ true
    → any is_gone ws ≡ false
    → await_release name pid ws ≡ stopped
unfolding await_release
await_release-stopped name pid [] h g = cc
await_release-stopped name pid (client_gone ∷ ws) h g = cc
await_release-stopped name pid (acknowledged reg ∷ ws) h g = await_release-stopped name pid ws h g
await_release-stopped name pid (ticked reg ∷ ws) h g =
    ground (arith, h, g, await_release-stopped name pid ws)

-- Once a tick finds that the owner has given the name up, the client that is still there is told so,
-- whether or not the owner ever acknowledges.
pub await_stop-stopped :
    (name : Text) (pid : ℤ) (ws : List Waited)
    → any (tick_shows name pid) ws ≡ true
    → any is_gone ws ≡ false
    → await_stop name pid ws ≡ stopped
unfolding await_stop
await_stop-stopped name pid [] h g = cc
await_stop-stopped name pid (client_gone ∷ ws) h g = cc
await_stop-stopped name pid (acknowledged reg ∷ ws) h g =
    ground (arith, h, g, await_release-stopped name pid ws)
await_stop-stopped name pid (ticked reg ∷ ws) h g =
    ground (arith, h, g, await_stop-stopped name pid ws)
