-- ===== src/Asteroids/World/RunningExamples.antt =====
-- The beginning of a game (apps/asteroids), and the theorems about its runs and its timer at it.
use geoff.Prelude.{◌∷◌, ◌≡◌, refl, true, false, [], none}
use geoff.Words.{little}
use geoff.Double.Milli.{Milli, milli_double}
use geoff.Asteroids.RockField
use geoff.Asteroids.RockField.{RockField}
use geoff.Asteroids.Collision.Examples.{dice}
use geoff.Asteroids.Session.{World}
use geoff.SortedMap.{lookup, insert}
use geoff.Asteroids.World.{tick}
use geoff.Asteroids.Player.{Player}
use geoff.Asteroids.World.Nulls.{tick-null}
use geoff.Asteroids.World.Creation.{get_universe}
use geoff.Asteroids.World.Timer.{Timer, start, destroy, destroy-await}
use geoff.Asteroids.World.Game.{Game, Reach, begin, later, found}
use geoff.Asteroids.World.Running.{IsGame, Reach-IsGame}

abbrev first : Game Milli
first = record { timer = start 16666 false; sessions = []; world = get_universe dice 2 none }

first-Reach : Reach ⦃host = little⦄ dice 2 first
first-Reach = begin 16666 false []

-- A write is complete after the session of its web socket has gone.
Reach-IsGame_example : IsGame (record first { sessions = (7, none) ∷ [] })
unfolding lookup insert
Reach-IsGame_example = Reach-IsGame ⦃host = little⦄ dice 2 (later first-Reach (found 7))

-- A wait falls due in every round.
destroy-await_example :
    ((destroy (λ n. true) first.timer).0 ≡ 50)
    × ((destroy (λ n. true) first.timer).1.timer_complete ≡ false)
destroy-await_example = destroy-await (λ n. true) first.timer

tick-null_example : tick ⦃host = little⦄ dice 2 0 ((3, none) ∷ []) first.world ≡ none
unfolding lookup
tick-null_example = tick-null ⦃host = little⦄ dice 2 0 ((3, none) ∷ []) first.world 3 refl
