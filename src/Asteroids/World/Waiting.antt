-- ===== src/Asteroids/World/Waiting.antt =====
-- How the running timer waits (apps/asteroids/src/Timer.cpp): what Ticker leaves of its waits.
use geoff.Prelude.{ℕ, suc, ◌≤◌, ◌≡◌, Bool, true, false, arith}
use geoff.Asteroids.World.Timer.{Timer, start, reschedule}

pub reschedule_running :
    (ec : Bool) (t : Timer) (n : ℕ)
    → t.run_timer ≡ true
    → t.waiting ≡ suc n
    → t.waiting ≤ 1
    → let t' = reschedule ec (record t { waiting = n }) in
      (t'.tick_count ≡ t.tick_count) × (t'.run_timer ≡ true) × (t'.waiting ≤ 1)
unfolding reschedule
reschedule_running ec t n r e h = ground arith

pub reschedule_waits :
    (ec : Bool) (t : Timer) (n : ℕ)
    → t.run_timer ≡ true
    → t.waiting ≡ suc n
    → t.waiting ≤ 1
    → ec ≡ false
    → (reschedule ec (record t { waiting = n })).waiting ≡ 1
unfolding reschedule
reschedule_waits ec t n r e h f = ground arith

pub start_running :
    (interval : ℕ) (ec : Bool)
    → let t = start interval ec in (t.tick_count ≡ 0) × (t.run_timer ≡ true) × (t.waiting ≤ 1)
unfolding start reschedule
start_running interval ec = ground arith
