-- ===== src/Asteroids/World/Game.antt =====
-- The game as it runs: the timer, the sessions and the universe, and what happens to them
-- (apps/asteroids/src/Timer.cpp, Session.cpp, Universe.cpp and lib/src/WebsockServer.cpp).
use geoff.Prelude.{ℕ, suc, ◌≡◌, Bool, List, Option, none, some}
use geoff.Words.{Host}
use geoff.Double.{Double}
use geoff.SortedMap.{lookup, insert, remove}
use geoff.Asteroids.Session.{Session, World, on_message}
use geoff.Asteroids.Session
use geoff.Asteroids.World.{SessionMap}
use geoff.Asteroids.World.Creation.{get_universe}
use geoff.Asteroids.World.Timer.{Timer, start, ticker}

pub record Game (W : Type 0) : Type 0 where
  pub timer : Timer
  pub sessions : SessionMap
  pub world : World W

-- WebsockServer::OnAccept, OnClose and FindSessionByID on the map, which enters a null pointer for an
-- id that it does not have.
abbrev pub join : ℕ → SessionMap → SessionMap
join id m = insert id (some (Session.create id)) m

abbrev pub leave : ℕ → SessionMap → SessionMap
leave id m = remove id m

abbrev pub find : ℕ → Option (Option Session) → SessionMap → SessionMap
find id none m = insert id none m
find id (some s) m = m

module _ {W : Type 0} ⦃d : Double W⦄ ⦃host : Host⦄ (rand : ℕ → ℕ) (rand_max : ℕ) where
  open d use {of_nat}

  -- A client comes, goes, or sends a message that is handled; a session is looked for, as a web socket
  -- does after a read or a write, be it there or not; a wait of the timer ends and Ticker runs, or it
  -- ends with an error.
  pub data Step (g : Game W) : Game W → Type 0 where
    joined : (id : ℕ) → Step g (record g { sessions = join id g.sessions })
    left : (id : ℕ) → Step g (record g { sessions = leave id g.sessions })
    found : (id : ℕ) → Step g (record g { sessions = find id (lookup id g.sessions) g.sessions })
    message :
        (id : ℕ) (bytes : List ℕ) (s s' : Session) (w' : World W)
        → lookup id g.sessions ≡ some (some s)
        → on_message rand rand_max bytes s g.world ≡ some (s', w')
        → Step g (record g { sessions = insert id (some s') g.sessions; world = w' })
    ticked :
        (n : ℕ) (ec : Bool) (t' : Timer) (m' : SessionMap) (w' : World W)
        → g.timer.waiting ≡ suc n
        → ticker rand rand_max ec (record g.timer { waiting = n }) g.sessions g.world
          ≡ some (t', m', w')
        → Step g (record { timer = t'; sessions = m'; world = w' })
    wait_failed :
        (n : ℕ)
        → g.timer.waiting ≡ suc n
        → Step g (record g { timer = record g.timer { waiting = n } })

  -- The game begins when the constructor of the first session calls GetUniverse, which makes the
  -- universe and its timer.
  pub data Reach : Game W → Type 0 where
    begin :
        (interval : ℕ) (ec : Bool) (m : SessionMap)
        → Reach (record {
          timer = start interval ec;
          sessions = m;
          world = get_universe rand rand_max none;
        })
    later : {g g' : Game W} → Reach g → Step g g' → Reach g'
