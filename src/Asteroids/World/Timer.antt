-- ===== src/Asteroids/World/Timer.antt =====
-- apps/asteroids/inc/Timer.h and src/Timer.cpp: the timer that drives the game. An asynchronous wait
-- of the deadline timer is under way or not, and its completion calls Ticker.
use geoff.Prelude.{
  ◌>>=◌, ℕ, zero, suc, ◌+◌, ◌%◌, ◌≡◌, refl, Bool, true, false, not, ◌&&◌, Option, some,
  if◌then◌else◌, arith,
}
use geoff.Words.{Host, u32_mod}
use geoff.Double.{Double}
use geoff.Asteroids.Session.{World}
use geoff.Asteroids.World.{SessionMap, tick}

-- `waiting` is the waits of m_timer under way, and `locked` that m_timer_mutex is held for good.
pub record Timer : Type 0 where
  pub interval : ℕ
  pub tick_count : ℕ
  pub run_timer : Bool
  pub timer_complete : Bool
  pub locked : Bool
  pub waiting : ℕ

-- The end of Ticker: it is complete, or waits once more unless expires_from_now sets `ec`.
unfoldable pub reschedule : Bool → Timer → Timer
reschedule ec t =
    if not t.run_timer
    then record t { timer_complete = true }
    else (if ec then t else record t { waiting = suc t.waiting })

-- The constructor. The first TickEvent has nothing to do: g_universe is not there yet, so no session
-- has a player.
unfoldable pub start : ℕ → Bool → Timer
unfolding reschedule
start interval ec = reschedule ec (record {
  interval = interval;
  tick_count = 0;
  run_timer = true;
  timer_complete = false;
  locked = false;
  waiting = 0;
})

-- m_tick++, which nothing calls.
unfoldable pub get_tick : Timer → ℕ × Timer
get_tick t = (t.tick_count, record t { tick_count = (t.tick_count + 1) % u32_mod })

module _ {W : Type 0} ⦃d : Double W⦄ ⦃host : Host⦄ (rand : ℕ → ℕ) (rand_max : ℕ) where
  unfoldable pub tick_event : Timer → SessionMap → World W → Option (SessionMap × World W)
  tick_event t m w = if not t.run_timer then some (m, w) else tick rand rand_max t.tick_count m w

  unfoldable pub ticker :
      Bool → Timer → SessionMap → World W → Option (Timer × SessionMap × World W)
  unfolding reschedule
  ticker ec t m w = do (m', w') ← tick_event t m w; some (reschedule ec t, m', w')

-- While the destructor sleeps, Ticker runs when its wait is due, if it gets the mutex.
unfoldable pub sleep : Bool → Timer → Timer
unfolding reschedule
sleep due t = if due && not t.locked then reschedule false t else t

-- The loop of the destructor: how many times it sleeps, and the timer after that. `due retries` says
-- whether a wait is due in the round that begins with that many retries and one more.
unfoldable pub await : (ℕ → Bool) → ℕ → Timer → ℕ × Timer
unfolding sleep
await due zero t = (0, t)
await due (suc retries) t =
    let rest = await due retries (sleep (due retries) (record t { run_timer = false })) in
    if t.timer_complete then (0, t) else (suc rest.0, rest.1)

-- The destructor, which holds the mutex throughout.
unfoldable pub destroy : (ℕ → Bool) → Timer → ℕ × Timer
unfolding await
destroy due t = await due 50 (record t { locked = true; run_timer = false; timer_complete = false })

await_locked :
    (due : ℕ → Bool) (retries : ℕ) (t : Timer)
    → t.locked ≡ true
    → t.timer_complete ≡ false
    → ((await due retries t).0 ≡ retries) × ((await due retries t).1.timer_complete ≡ false)
unfolding await sleep
await_locked due zero t l c = (refl, c)
await_locked due (suc retries) t l c =
    ground (arith, await_locked due retries (record t { run_timer = false }) l c)

-- The destructor's loop ends, but only when all of its fifty retries are used up, whatever is due in
-- the meantime: Ticker, which would report that the timer is complete, needs the mutex that the
-- destructor holds.
pub destroy-await :
    (due : ℕ → Bool) (t : Timer)
    → ((destroy due t).0 ≡ 50) × ((destroy due t).1.timer_complete ≡ false)
unfolding destroy
destroy-await due t =
    await_locked due 50 (record t { locked = true; run_timer = false; timer_complete = false }) refl
      refl
