-- ===== src/Asteroids/Session/Keeps.antt =====
-- What the messages of a client keep (apps/asteroids/src/Session.cpp).
use geoff.Prelude.{
  ℕ, Bool, List, [], ◌∷◌, Option, none, some, ◌≡◌, >>=-eq-some, arith, subst, Option-cases, inl,
  inr,
}
use mathlib.Core.Option.{some-injective}
use geoff.Words.{Host}
use geoff.AppBuffer.{AppBuffer, get_uint8_at, get_uint16_at}
use geoff.SortedMap.{SortedMap, lookup, insert}
use geoff.Websock.{receive}
use geoff.AppBuffer.Message.{write}
use geoff.GameSession.Keeps.{handle_received-Keeps}
use geoff.Double.{Double}
use geoff.Asteroids.RockField.Nodes.{IsList, launch_one-IsList}
use geoff.Asteroids.Player.{Player, click_event}
use geoff.Asteroids.Player
use geoff.Asteroids.Player.Phases.{
  IsPlayer, create-IsPlayer, key_event-IsPlayer, resize_event-IsPlayer,
}
use geoff.Asteroids.Collision.Keeps.{AllPlayers}
use geoff.Asteroids.Session.{
  Session, World, player_of, put_player, on_key, on_resize, on_click, handle_new_session,
  handle_key_event, handle_click_event, handle_resize_event, game, on_message,
}

-- Every player is a player, and the rocks are a list.
pub record IsWorld {W : Type 0} (w : World W) : Type 0 where
  pub players : AllPlayers w.players
  pub rocks : IsList w.field

module _ {W : Type 0} where
  lookup-IsPlayer :
      (id : ℕ) (players : SortedMap (Player W)) (p : Player W)
      → AllPlayers players
      → lookup id players ≡ some p
      → IsPlayer p
  unfolding lookup
  lookup-IsPlayer id [] p all e = cc
  lookup-IsPlayer id ((k, q) ∷ players) p (i, all) e =
      ground (arith, lookup-IsPlayer id players p all)

  insert-IsPlayer :
      (id : ℕ) (players : SortedMap (Player W)) (p : Player W)
      → AllPlayers players
      → IsPlayer p
      → AllPlayers (insert id p players)
  unfolding insert
  insert-IsPlayer id [] p all h = (h, tt)
  insert-IsPlayer id ((k, q) ∷ players) p (i, all) h =
      ground (arith, insert-IsPlayer id players p all h)

  pub player_of-IsPlayer :
      (s : Session) (w : World W) (p : Player W) → IsWorld w → player_of s w ≡ some p → IsPlayer p
  unfolding player_of
  player_of-IsPlayer s w p i e =
      ground (arith, lookup-IsPlayer s.websock.session_id w.players p i.players)

  pub put_player-IsWorld :
      (s : Session) (w : World W) (p : Player W)
      → IsWorld w
      → IsPlayer p
      → IsWorld (put_player s p w)
  unfolding put_player
  put_player-IsWorld s w p i h = record {
    players = insert-IsPlayer s.websock.session_id w.players p i.players h;
    rocks = i.rocks;
  }

module _ {W : Type 0} ⦃d : Double W⦄ where
  on_key-IsWorld :
      (key : ℕ) (is_down : Bool) (s : Session) (w : World W)
      → IsWorld w
      → IsWorld (on_key key is_down s w (player_of s w))
  unfolding on_key
  on_key-IsWorld key is_down s w i = elim (Option-cases (player_of s w)) [
    | inl e ↦ rw (e, on_key) i
    | inr (p, e) ↦
        rw (e, on_key)
          (put_player-IsWorld s w (Player.key_event key is_down p) i
            (key_event-IsPlayer key is_down p (player_of-IsPlayer s w p i e)))
  ]

  on_resize-IsWorld :
      (x y : ℕ) (s : Session) (w : World W)
      → IsWorld w
      → IsWorld (on_resize x y s w (player_of s w))
  unfolding on_resize
  on_resize-IsWorld x y s w i = elim (Option-cases (player_of s w)) [
    | inl e ↦ rw (e, on_resize) i
    | inr (p, e) ↦
        rw (e, on_resize)
          (put_player-IsWorld s w (Player.resize_event w.universe x y p) i
            (resize_event-IsPlayer w.universe x y p (player_of-IsPlayer s w p i e)))
  ]

  module _ (rand : ℕ → ℕ) (rand_max : ℕ) where
    on_click-IsWorld :
        (x y : ℕ) (w : World W) (o : Option (Player W))
        → IsWorld w
        → IsWorld (on_click rand rand_max x y w o)
    unfolding on_click click_event
    on_click-IsWorld x y w none i = i
    on_click-IsWorld x y w (some p) i = record {
      players = i.players;
      rocks = launch_one-IsList rand rand_max _ _ _ w.field i.rocks;
    }

    module _ ⦃host : Host⦄ where
      handle_new_session-IsWorld :
          (rx : AppBuffer) (o o' : Session × World W)
          → IsWorld o.1
          → handle_new_session rand rand_max rx o ≡ some o'
          → IsWorld o'.1
      unfolding handle_new_session
      handle_new_session-IsWorld rx (s, w) o' i e =
          let (width, _, e1) = >>=-eq-some (get_uint16_at 3 rx) _ e in
          let (height, _, e2) = >>=-eq-some (get_uint16_at 5 rx) _ e1 in
          let (tx, _, e3) = >>=-eq-some (write _ _) _ e2 in
          subst (λ q. IsWorld q.1) (some-injective _ _ e3)
            (put_player-IsWorld s w _ i (create-IsPlayer w.universe _ _))

      handle_key_event-IsWorld :
          (rx : AppBuffer) (o o' : Session × World W)
          → IsWorld o.1
          → handle_key_event rand rand_max rx o ≡ some o'
          → IsWorld o'.1
      unfolding handle_key_event
      handle_key_event-IsWorld rx (s, w) o' i e =
          let (key, _, e1) = >>=-eq-some (get_uint8_at 2 rx) _ e in
          let (is_down, _, e2) = >>=-eq-some (get_uint8_at 1 rx) _ e1 in
          subst (λ q. IsWorld q.1) (some-injective _ _ e2) (on_key-IsWorld key _ s w i)

      handle_click_event-IsWorld :
          (rx : AppBuffer) (o o' : Session × World W)
          → IsWorld o.1
          → handle_click_event rand rand_max rx o ≡ some o'
          → IsWorld o'.1
      unfolding handle_click_event
      handle_click_event-IsWorld rx (s, w) o' i e =
          let (x, _, e1) = >>=-eq-some (get_uint16_at 5 rx) _ e in
          let (y, _, e2) = >>=-eq-some (get_uint16_at 7 rx) _ e1 in
          subst (λ q. IsWorld q.1) (some-injective _ _ e2)
            (on_click-IsWorld x y w (player_of s w) i)

      handle_resize_event-IsWorld :
          (rx : AppBuffer) (o o' : Session × World W)
          → IsWorld o.1
          → handle_resize_event rand rand_max rx o ≡ some o'
          → IsWorld o'.1
      unfolding handle_resize_event
      handle_resize_event-IsWorld rx (s, w) o' i e =
          let (x, _, e1) = >>=-eq-some (get_uint16_at 5 rx) _ e in
          let (y, _, e2) = >>=-eq-some (get_uint16_at 7 rx) _ e1 in
          subst (λ q. IsWorld q.1) (some-injective _ _ e2) (on_resize-IsWorld x y s w i)

      -- Whatever bytes a client sends, if they are handled without a fault then players that are as
      -- IsPlayer says stay so, and the rocks stay a list.
      pub on_message-IsWorld :
          (bytes : List ℕ) (s s' : Session) (w w' : World W)
          → IsWorld w
          → on_message rand rand_max bytes s w ≡ some (s', w')
          → IsWorld w'
      unfolding on_message game
      on_message-IsWorld bytes s s' w w' i e =
          let (rx, websock) = receive bytes s.websock in
          handle_received-Keeps (game rand rand_max) (λ o. IsWorld o.1) handle_new_session-IsWorld
            handle_click_event-IsWorld handle_key_event-IsWorld handle_resize_event-IsWorld rx
            (record s { websock = websock }, w) (s', w') i e
