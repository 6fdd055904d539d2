-- ===== src/Sessions/Found.antt =====
-- What WebsockSessionManager::find_by_id finds (lib/inc/WebsockSessionManager.h).
use geoff.Prelude.{ℕ, ◌+◌, ◌≡◌, refl, none, some}
use geoff.SortedMap.{lookup}
use geoff.SortedMap.Laws.{lookup-insert, lookup-remove, length-insert}
use geoff.Sessions.{
  SessionType, Sessions, find_by_id, entered, delete_by_id, add_session, get_count,
}
use geoff.Sessions.Reachable.{IsSessions}

module _ {S W : Type 0} where
  -- To look for an unknown id gives a null pointer and enters it, once: the sessions are then one
  -- more, and looking again changes nothing.
  pub find_by_id_unknown :
      (id : ℕ) (m : Sessions S W)
      → lookup id m.map ≡ none
      → let found = find_by_id id m in
        (found.0 ≡ none)
        × (get_count found.1 ≡ get_count m + 1)
        × (find_by_id id found.1 ≡ (none, found.1))
  unfolding find_by_id entered get_count
  find_by_id_unknown id m e =
      rw (e, find_by_id, entered)
        (refl, length-insert id none m.map e, rw (lookup-insert id none m.map))

  module _ (t : SessionType S W) where
    -- The id of a new session finds that session, and to look for it changes nothing.
    pub find_by_id-add_session :
        (m : Sessions S W)
        → find_by_id (add_session t m).0 (add_session t m).1
          ≡ (some (t.make m.next_id), (add_session t m).1)
    unfolding find_by_id add_session entered
    find_by_id-add_session m = rw (lookup-insert m.next_id (some (t.make m.next_id)) m.map)

    -- A closed session is not found, in a map as IsSessions says.
    pub find_by_id-delete_by_id :
        (id : ℕ) (m : Sessions S W) → IsSessions t m → (find_by_id id (delete_by_id id m)).0 ≡ none
    unfolding find_by_id delete_by_id entered
    find_by_id-delete_by_id id m i = rw (lookup-remove id 0 m.map i.sorted)
