-- ===== src/GameSession/Echo.antt =====
-- The answers of lib/src/GameSession.cpp.
use geoff.Prelude.{
  ℕ, ◌≡◌, ◌≢◌, refl, Bool, false, List, [], ◌∷◌, some, length, ltb, ◌==◌, if◌then◌else◌, arith,
}
use geoff.Words.{Host}
use geoff.AppBuffer.{AppBuffer, of_bytes}
use geoff.AppBuffer.Received.{get_uint8_at-of_bytes, size-of_bytes, flag-of_bytes}
use geoff.AppBuffer.Filled.{filled}
use geoff.AppBuffer.Message.{Field, u8, u32, total, encode_all}
use geoff.AppBuffer.Message.Laws.{write-make}
use geoff.Websock.{WebsockSession, receive, commit_tx_buffer}
use geoff.GameSession.{
  Handlers, dispatch, comms_handler, handle_received, on_message, reply, echo, echo_key_event,
}

module _ ⦃host : Host⦄ where
  dispatch_other :
      (handlers : Handlers WebsockSession) (request : ℕ) (rx : AppBuffer) (s : WebsockSession)
      → request ≢ 0
      → request ≢ 2
      → request ≢ 4
      → request ≢ 6
      → dispatch handlers request rx s ≡ some s
  unfolding dispatch
  dispatch_other handlers request rx s a b c d = ground arith

  pub reply-filled :
      (flag : Bool) (n : ℕ) (fields : List Field) (s : WebsockSession)
      → n ≡ total fields
      → reply flag n fields s ≡ some (commit_tx_buffer (filled flag (encode_all flag fields) 0) s)
  unfolding reply
  reply-filled flag n fields s h = rw (write-make flag n fields h)

  -- A message of another type is ignored, whatever the handlers are; only the byte order is kept.
  pub on_message_other :
      (handlers : Handlers WebsockSession) (order request : ℕ) (bytes : List ℕ) (s : WebsockSession)
      → request ≢ 0
      → request ≢ 2
      → request ≢ 4
      → request ≢ 6
      → on_message handlers (order ∷ request ∷ bytes) s
        ≡ some (record s { is_little_endian = order == 0xAB })
  unfolding on_message receive handle_received comms_handler
  on_message_other handlers order request bytes s a b c d =
      let flag = order == 0xAB in
      let rx = of_bytes (request ∷ bytes) flag in
      let s' = record s { is_little_endian = flag } in
      rw (get_uint8_at-of_bytes 0 (request ∷ bytes) flag)
        (dispatch_other handlers request rx s' a b c d)

  -- A key is answered in the byte order of its message with the session's id, 1 for a key that was
  -- pressed and 0 for one that was released, and the key.
  pub on_message_key :
      (order is_down key : ℕ) (bytes : List ℕ) (s : WebsockSession)
      → let flag = order == 0xAB in
        on_message echo (order ∷ 4 ∷ is_down ∷ key ∷ bytes) s
        ≡ some (
            commit_tx_buffer
              (filled flag
                (encode_all flag (
                  u8 0xBB
                  ∷ u8 0x05
                  ∷ u32 s.session_id
                  ∷ u8 (if is_down == 0 then 0 else 1)
                  ∷ u8 key
                  ∷ []))
                0)
              (record s { is_little_endian = flag }))
  unfolding on_message receive handle_received comms_handler dispatch echo echo_key_event
  on_message_key order is_down key bytes s =
      let flag = order == 0xAB in
      let rx = 4 ∷ is_down ∷ key ∷ bytes in
      let long : ltb (length rx) 3 ≡ false = ground arith in
      rw (get_uint8_at-of_bytes 0 rx flag, size-of_bytes rx flag)
        (rw (get_uint8_at-of_bytes 1 rx flag) (
          rw (get_uint8_at-of_bytes 2 rx flag) (
            rw (long, flag-of_bytes rx flag)
              (reply-filled flag 8 _ (record s { is_little_endian = flag }) refl))))
