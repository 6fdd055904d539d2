-- ===== src/Asteroids/Universe/Packet.antt =====
-- The bytes of the universe's tick message (Universe::PerSessionTickEvent of
-- apps/asteroids/src/Universe.cpp).
use geoff.Prelude.{
  ℕ, ◌+◌, ◌-◌, ◌*◌, ◌≤◌, ◌≡◌, refl, sym, ◌∙◌, ap, Bool, List, [], ◌∷◌, ◌++◌, Option, some, length,
  append_assoc, append-nil, arith, inl, inr, ◌==◌, if◌then◌else◌, Bool-cases,
}
use geoff.Words.{Host}
use geoff.AppBuffer.Filled.{filled, extend-filled}
use geoff.AppBuffer.Message.{Field, u16, total, encode_all}
use geoff.AppBuffer.Message.Laws.{write-make, write-filled, encode_all-append, encode_all-nil}
use geoff.Double.{Double}
use geoff.Asteroids.Structs.{Size}
use geoff.Asteroids.Gun.{Gun}
use geoff.Asteroids.RockField.{Node}
use geoff.Asteroids.Ship.{Ship}
use geoff.Asteroids.Player.{Player, Client}
use geoff.Asteroids.Universe.{
  others, bullet_count, header, rock_fields, ship_fields, gun_fields, bullet_fields, append,
  append_bullets, append_ships, tick_message,
}

total-append : (fs gs : List Field) → total (fs ++ gs) ≡ total fs + total gs
total-append [] gs = omega arith
total-append (f ∷ fs) gs = omega (arith, total-append fs gs)

module _ ⦃host : Host⦄ where
  append-filled :
      (flag : Bool) (count width : ℕ) (fields : List Field) (out : List ℕ)
      → total fields ≡ count * width
      → append flag count width fields (filled flag out 0)
        ≡ some (filled flag (out ++ encode_all flag (u16 count ∷ fields)) 0)
  unfolding append
  append-filled flag count width fields out h =
      let fits : total (u16 count ∷ fields) ≤ 2 + count * width = omega (arith, h) in
      let full : 2 + count * width - total (u16 count ∷ fields) ≡ 0 = omega (arith, h) in
      rw (extend-filled flag flag out 0 (2 + count * width))
        (write-filled flag out (2 + count * width) (u16 count ∷ fields) fits ∙ rw full)

  nothing_more :
      (flag : Bool) (out : List ℕ)
      → some (filled flag out 0) ≡ some (filled flag (out ++ encode_all flag []) 0)
  nothing_more flag out =
      ap (λ o. some (filled flag o 0)) (rw (encode_all-nil flag) (sym (append-nil out)))

module _ {W : Type 0} ⦃d : Double W⦄ where
  total-rock_fields : (rocks : List (Node W)) → total (rock_fields rocks) ≡ length rocks * 6
  total-rock_fields [] = omega arith
  total-rock_fields (n ∷ rocks) = omega (arith, total-rock_fields rocks)

  total-ship_fields : (ships : List (Ship W)) → total (ship_fields ships) ≡ length ships * 6
  total-ship_fields [] = omega arith
  total-ship_fields (s ∷ ships) = omega (arith, total-ship_fields ships)

  total-gun_fields : (g : Gun W) → total (gun_fields g) ≡ length g * 4
  total-gun_fields [] = omega arith
  total-gun_fields (b ∷ g) = omega (arith, total-gun_fields g)

  total-bullet_fields :
      (ships : List (Ship W)) → total (bullet_fields ships) ≡ bullet_count ships * 4
  total-bullet_fields [] = omega arith
  total-bullet_fields (s ∷ ships) = omega (
    arith,
    total-append (gun_fields s.gun) (bullet_fields ships),
    total-gun_fields s.gun,
    total-bullet_fields ships,
  )

  -- What follows the rocks: nothing if there is no other ship, and no bullets if there are none.
  abbrev pub bullet_part : List (Ship W) → List Field
  bullet_part ships =
      if bullet_count ships == 0 then [] else u16 (bullet_count ships) ∷ bullet_fields ships

  abbrev pub ship_part : List (Ship W) → List Field
  ship_part [] = []
  ship_part (s ∷ ships) =
      u16 (length (s ∷ ships)) ∷ (ship_fields (s ∷ ships) ++ bullet_part (s ∷ ships))

  module _ ⦃host : Host⦄ where
    append_bullets-filled :
        (flag : Bool) (ships : List (Ship W)) (out : List ℕ)
        → append_bullets flag ships (filled flag out 0)
          ≡ some (filled flag (out ++ encode_all flag (bullet_part ships)) 0)
    unfolding append_bullets
    append_bullets-filled flag ships out = elim (Bool-cases (bullet_count ships == 0)) [
      | inl no_bullet ↦ rw no_bullet (nothing_more flag out)
      | inr bullets ↦ rw bullets (
          append-filled flag (bullet_count ships) 4 (bullet_fields ships) out
            (total-bullet_fields ships))
    ]

    append_ships-filled :
        (flag : Bool) (ships : List (Ship W)) (out : List ℕ)
        → append_ships flag ships (filled flag out 0)
          ≡ some (filled flag (out ++ encode_all flag (ship_part ships)) 0)
    unfolding append_ships
    append_ships-filled flag [] out = nothing_more flag out
    append_ships-filled flag (s ∷ ships) out =
        let all = s ∷ ships in
        let counted = u16 (length all) ∷ ship_fields all in
        rw (append-filled flag (length all) 6 (ship_fields all) out (total-ship_fields all)) (
          append_bullets-filled flag all (out ++ encode_all flag counted)
          ∙ rw (
            append_assoc out (encode_all flag counted) (encode_all flag (bullet_part all)),
            encode_all-append flag counted (bullet_part all),
          ))

    -- The message to a client never overflows its buffer and fills it: the header, the rocks with
    -- their count, and, if there are any, the other ships with theirs and their bullets with theirs.
    pub universe_message :
        (u : Size W) (rocks : List (Node W)) (sessions : List (ℕ × Option (Player W))) (c : Client)
        → tick_message u rocks sessions c
          ≡ some (
              filled c.is_little_endian
                (encode_all c.is_little_endian (
                  header u c
                  ++ (u16 (length rocks)
                      ∷ (rock_fields rocks ++ ship_part (others c.session_id sessions)))))
                0)
    unfolding tick_message
    universe_message u rocks sessions c =
        let flag = c.is_little_endian in
        let ships = others c.session_id sessions in
        let counted = u16 (length rocks) ∷ rock_fields rocks in
        let head = encode_all flag (header u c) in
        rw (write-make flag 14 (header u c) refl) (
          rw
            (append-filled flag (length rocks) 6 (rock_fields rocks) head (total-rock_fields rocks))
            (append_ships-filled flag ships (head ++ encode_all flag counted)
              ∙ rw (
                encode_all-append flag (header u c) (counted ++ ship_part ships),
                encode_all-append flag counted (ship_part ships),
                append_assoc head (encode_all flag counted) (encode_all flag (ship_part ships)),
              )))
