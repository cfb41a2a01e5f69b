-- ===== src/Tunnel/Client/Backoff.antt =====
-- How long the client waits before it connects again.
use routeup.Base.{
  ℕ, ltb, if◌then◌else◌, get_elem?, zero, suc, ◌+◌, ◌*◌, ◌≤◌, ◌≡◌, some, List, [], ◌∷◌, arith,
  length, any, refl, ap, ◌∙◌, Bool, false, not, ◌||◌,
}
use routeup.Tunnel.Client.{
  Attempt, base_backoff, max_backoff, next_backoff, run_from, transient, permanent, running, run,
}

pub power : ℕ → ℕ
power zero = 1
power (suc n) = power n * 2

-- The wait after so many failures: half a second, doubled each time, but never above half a minute.
abbrev pub nominal : ℕ → ℕ
nominal n = if ltb max_backoff (base_backoff * power n) then max_backoff else base_backoff * power n

power-pos : (n : ℕ) → 1 ≤ power n
unfolding power
power-pos zero = omega arith
power-pos (suc n) = omega (arith, power-pos n)

next-nominal : (n : ℕ) → next_backoff (nominal n) ≡ nominal (suc n)
unfolding power
next-nominal n = ground (arith, power-pos n)

run_from-waits :
    (b n i w : ℕ) (attempts : List Attempt)
    → b ≡ nominal n
    → get_elem? (run_from b attempts).waits i ≡ some w
    → w ≡ nominal (n + i)
unfolding run_from
run_from-waits b n i w [] e h = cc
run_from-waits b n zero w (a ∷ more) e h =
    let head : w ≡ b = ground (arith, h) in
    let shift : n ≡ n + 0 = omega arith in head ∙ e ∙ ap (λ k. nominal k) shift
run_from-waits b n (suc i) w (a ∷ more) e h =
    run_from-waits (next_backoff b) (suc n) i w more (rw e (next-nominal n)) (ground (arith, h))
    ∙ ap nominal (omega arith)

abbrev harmless : Attempt → Bool
harmless a = elim a.outcome [ permanent ↦ false | transient ↦ not (a.done_after || a.done_in_wait) ]

run_from-going :
    (b : ℕ) (attempts : List Attempt)
    → any (λ a. not (harmless a)) attempts ≡ false
    → (length (run_from b attempts).waits ≡ length attempts)
      × ((run_from b attempts).ending ≡ running)
unfolding run_from
run_from-going b [] h = (refl, refl)
run_from-going b (a ∷ more) h = ground (arith, h, run_from-going (next_backoff b) more)

-- The wait after failure number i, counted from 0, is half a second doubled i times, up to half a
-- minute: for every run of Run, however many sessions fail.
pub run-waits :
    (attempts : List Attempt) (i w : ℕ) → get_elem? (run attempts).waits i ≡ some w → w ≡ nominal i
unfolding run
run-waits attempts i w h =
    let shift : 0 + i ≡ i = omega arith in
    run_from-waits base_backoff 0 i w attempts start h ∙ ap (λ k. nominal k) shift
  where
    start : base_backoff ≡ nominal 0
    start = unfold power in ground arith

-- While no session ends with a permanent error and the context is not done, Run goes on: it waits
-- after each session, and does not return.
pub run-going :
    (attempts : List Attempt)
    → any (λ a. not (harmless a)) attempts ≡ false
    → (length (run attempts).waits ≡ length attempts) × ((run attempts).ending ≡ running)
unfolding run
run-going attempts h = run_from-going base_backoff attempts h
