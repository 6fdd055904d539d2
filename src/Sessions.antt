-- ===== src/Sessions.antt =====
-- lib/inc/WebsockSessionManager.h, and the use that lib/src/WebsockServer.cpp makes of it. The type
-- of a session is a parameter, as it is of the class template.
pub mod Reachable
pub mod Found
pub mod Socket
mod SocketExamples
use geoff.Prelude.{◌>>=◌, ℕ, ◌+◌, ◌%◌, ◌≡◌, List, [], Option, none, some, length}
use geoff.Words.{u32_mod}
use geoff.AppBuffer.{AppBuffer}
use geoff.SortedMap.{SortedMap, lookup, insert, remove}

-- What the manager, the server and a web socket ask of a session, in a world that the sessions share.
-- `comms_handler` is `none` on a fault, and `on_tx_ready` is the web socket whose handler is posted,
-- as its callback was set.
pub record SessionType (S W : Type 0) : Type 0 where
  pub make : ℕ → S
  pub session_id : S → ℕ
  pub comms_handler : List ℕ → S × W → Option (S × W)
  pub get_next_tx_buffer : S → Option AppBuffer × S
  pub set_on_tx_ready_callback : ℕ → S → S
  pub on_tx_ready : S → Option ℕ
  pub session_id-make : (id : ℕ) → session_id (make id) ≡ id
  pub session_id-set :
      (this : ℕ) (s : S) → session_id (set_on_tx_ready_callback this s) ≡ session_id s
  pub on_tx_ready-make : (id : ℕ) → on_tx_ready (make id) ≡ none
  pub on_tx_ready-set :
      (this : ℕ) (s : S) → on_tx_ready (set_on_tx_ready_callback this s) ≡ some this
  pub comms_handler_frame :
      (bytes : List ℕ) (s s' : S) (w w' : W)
      → comms_handler bytes (s, w) ≡ some (s', w')
      → (session_id s' ≡ session_id s) × (on_tx_ready s' ≡ on_tx_ready s)
  pub get_next_tx_buffer_frame :
      (s : S)
      → let s' = (get_next_tx_buffer s).1 in
        (session_id s' ≡ session_id s) × (on_tx_ready s' ≡ on_tx_ready s)

-- A null pointer in the map is `none`. `world` is what the sessions share outside of the manager.
pub record Sessions (S W : Type 0) : Type 0 where
  pub next_id : ℕ
  pub map : SortedMap (Option S)
  pub world : W

abbrev pub empty : {S W : Type 0} → W → Sessions S W
empty w = record { next_id = 0; map = []; world = w }

module _ {S W : Type 0} where
  -- m_sessions[sessionID] enters a null pointer for an unknown id.
  unfoldable pub entered : ℕ → Option (Option S) → Sessions S W → Option S × Sessions S W
  entered id none m = (none, record m { map = insert id none m.map })
  entered id (some s) m = (s, m)

  unfoldable pub find_by_id : ℕ → Sessions S W → Option S × Sessions S W
  find_by_id id m = entered id (lookup id m.map) m

  unfoldable pub delete_by_id : ℕ → Sessions S W → Sessions S W
  delete_by_id id m = record m { map = remove id m.map }

  pub get_count : Sessions S W → ℕ
  get_count m = length m.map

  module _ (t : SessionType S W) where
    open t use {make, comms_handler}

    -- The id of the new session, and the sessions with it.
    unfoldable pub add_session : Sessions S W → ℕ × Sessions S W
    add_session m = (
      m.next_id,
      record m {
        next_id = (m.next_id + 1) % u32_mod;
        map = insert m.next_id (some (make m.next_id)) m.map;
      },
    )

    -- The session handles the message, unless there is none.
    unfoldable pub handled : ℕ → List ℕ → Option S → Sessions S W → Option (Sessions S W)
    handled id bytes none m = some m
    handled id bytes (some s) m = do
      (s', w') ← comms_handler bytes (s, m.world)
      some (record m { map = insert id (some s') m.map; world = w' })

    -- WebsockServer::CommsHandler
    unfoldable pub server_comms_handler : ℕ → List ℕ → Sessions S W → Option (Sessions S W)
    server_comms_handler id bytes m =
        let (session, m') = find_by_id id m in handled id bytes session m'
