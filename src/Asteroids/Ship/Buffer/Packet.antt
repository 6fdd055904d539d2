-- ===== src/Asteroids/Ship/Buffer/Packet.antt =====
-- The bytes of a ship's packet (Ship::MakeBuffer of apps/asteroids/src/Ship.cpp).
use geoff.Prelude.{
  ℕ, ◌+◌, ◌-◌, ◌<◌, ◌≡◌, refl, sym, ap, ◌∙◌, subst, Bool, List, [], ◌∷◌, ◌++◌, some, length,
  replicate, length-append, replicate-append, length-replicate, append_assoc, append-nil, arith,
  ◌>>=◌,
}
use geoff.Words.{Host, u16_mod, stored16}
use geoff.Words.Laws.{length-stored16}
use geoff.AppBuffer.{AppBuffer, make, size, allocate, get_uint16_at, set_uint16_at, copy_in}
use geoff.AppBuffer.Memory.{load, load-append}
use geoff.AppBuffer.Filled.{filled, make-filled}
use geoff.AppBuffer.Patch.{
  holding, size-filled, allocate-filled, copy_in-replace, set_uint16_at-replace,
  get_uint16_at_first,
}
use geoff.AppBuffer.Message.{u8, u16, Field, write, encode_all}
use geoff.AppBuffer.Message.Laws.{
  write-make, write-filled, length-encode_all, encode_all-append, encode_all-u16,
  encode_all-u16-cons,
}
use geoff.Double.{Double}
use geoff.Asteroids.Consts.{fp_4_12}
use geoff.Asteroids.Gun
use geoff.Asteroids.Gun.{Gun, bullet_fields}
use geoff.Asteroids.Gun.Packet.{make_buffer-filled, make_buffer-nil}
use geoff.Asteroids.Ship.{Ship}
use geoff.Asteroids.Ship.Buffer.{flags, header, append_bullets, with_bullets, make_buffer}

module _ ⦃host : Host⦄ (flag : Bool) (head coords : List ℕ) (count : ℕ) where
  abbrev zero_count : List ℕ
  zero_count = stored16 host flag 0

  abbrev new_count : List ℕ
  new_count = stored16 host flag count

  abbrev room : List ℕ
  room = replicate (2 + length coords) 0

  abbrev bullets : AppBuffer
  bullets = filled flag (new_count ++ coords) 0

  abbrev before : AppBuffer
  before = filled flag (head ++ zero_count) (2 + length coords)

  abbrev written : List ℕ
  written = (head ++ (new_count ++ coords)) ++ (0 ∷ 0 ∷ [])

  size-bullets : size bullets ≡ 2 + length coords
  size-bullets = omega (
    arith,
    size-filled flag (new_count ++ coords) 0,
    length-append new_count coords,
    length-stored16 host flag count,
  )

  load_coords : load bullets.buff 2 (length coords) ≡ some coords
  load_coords =
      let two = length-stored16 host flag count in
      rw (append_assoc new_count coords []) (
        subst (λ k. load (new_count ++ (coords ++ [])) k (length coords) ≡ some coords) two
          (load-append new_count coords []))

  room_taken : replicate {A = ℕ} (2 + length coords) 0 ≡ replicate (length coords) 0 ++ (0 ∷ 0 ∷ [])
  room_taken =
      let e : 2 + length coords ≡ length coords + 2 = omega arith in
      rw e (sym (replicate-append (length coords) 2 0))

  module _ (eight : length head ≡ 8) (small : count < u16_mod) where
    abbrev end : ℕ
    end = 10 + (2 + length coords)

    ten : length (head ++ zero_count) ≡ 10
    ten = omega (arith, length-append head zero_count, length-stored16 host flag 0)

    get_count : get_uint16_at 0 bullets ≡ some count
    get_count =
        rw (append-nil (new_count ++ coords)) (get_uint16_at_first flag coords count _ small)

    allocated :
        allocate before (2 + length coords) ≡ (10, holding flag ((head ++ zero_count) ++ room) end)
    allocated =
        allocate-filled flag (head ++ zero_count) (2 + length coords) (2 + length coords) ∙ rw ten

    count_set :
        set_uint16_at 8 count (holding flag ((head ++ zero_count) ++ room) end)
        ≡ some (holding flag (head ++ (new_count ++ room)) end)
    count_set = rw (append_assoc head zero_count room) (
        set_uint16_at-replace flag head zero_count room count 8 end (sym eight)
          (length-stored16 host flag 0))

    coords_set :
        copy_in 10 coords (holding flag (head ++ (new_count ++ room)) end)
        ≡ some (holding flag ((head ++ new_count) ++ (coords ++ (0 ∷ 0 ∷ []))) end)
    coords_set =
        rw (← append_assoc head new_count room, room_taken)
          (copy_in-replace flag (head ++ new_count) (replicate (length coords) 0) coords
            (0 ∷ 0 ∷ []) 10 end
            (omega (arith, length-append head new_count, length-stored16 host flag count))
            (length-replicate (length coords) 0))

    all_written :
        holding flag ((head ++ new_count) ++ (coords ++ (0 ∷ 0 ∷ []))) end ≡ filled flag written 0
    all_written =
        let zeros : List ℕ = 0 ∷ 0 ∷ [] in
        let same : (head ++ new_count) ++ (coords ++ zeros) ≡ written ++ [] =
          simp (append_assoc, append-nil) in
        let long : end ≡ length written = omega (
          arith,
          length-append (head ++ (new_count ++ coords)) zeros,
          length-append head (new_count ++ coords),
          length-append new_count coords,
          length-stored16 host flag count,
        ) in
        ground (arith, same, long)

    -- A header of ten bytes whose last two hold a count of 0, and the bullets' packet: the count is
    -- that of the packet, the coordinates follow, and two zero bytes remain.
    append_bullets-filled : append_bullets bullets before ≡ some (filled flag written 0)
    unfolding append_bullets
    append_bullets-filled =
        let rest : 2 + length coords - 2 ≡ length coords = omega arith in
        rw (size-bullets, allocated)
          (rw get_count
            (rw count_set (rw rest (rw load_coords (rw coords_set (ap some all_written))))))

module _ {W : Type 0} ⦃d : Double W⦄ ⦃host : Host⦄ where
  open d use {to_u16, mul}

  -- What follows the header: the coordinates of the bullets, and two bytes of padding.
  abbrev pub trailer : Bool → Gun W → List ℕ
  trailer flag [] = []
  trailer flag (b ∷ g) = encode_all flag (bullet_fields (b ∷ g)) ++ (0 ∷ 0 ∷ [])

  -- The header without its count.
  abbrev fields : Ship W → List Field
  fields s =
      u16 (to_u16 s.pos_x)
      ∷ u16 (to_u16 s.pos_y)
      ∷ u16 (to_u16 (mul s.angle fp_4_12))
      ∷ u8 (flags s)
      ∷ u8 s.lives_left
      ∷ []

  header_split :
      (flag : Bool) (s : Ship W) (count : ℕ)
      → encode_all flag (header s count) ≡ encode_all flag (fields s) ++ stored16 host flag count
  header_split flag s count =
      encode_all-append flag (fields s) (u16 count ∷ [])
      ∙ ap (◌++◌ (encode_all flag (fields s))) (encode_all-u16 flag count)

  -- With the count of 0 in the header, k + 2 bytes are left for the bullets.
  header_written :
      (flag : Bool) (s : Ship W) (k : ℕ)
      → write (header s 0) (make (10 + (2 + k)) flag)
        ≡ some (filled flag (encode_all flag (fields s) ++ stored16 host flag 0) (2 + k))
  header_written flag s k =
      let left : 10 + (2 + k) - 10 ≡ 2 + k = omega arith in
      rw make-filled (
        write-filled flag [] (10 + (2 + k)) (header s 0) (omega arith)
        ∙ rw (left, header_split flag s 0))

  regrouped :
      (flag : Bool) (s : Ship W) (count : ℕ) (coords : List ℕ)
      → (encode_all flag (fields s) ++ (stored16 host flag count ++ coords)) ++ (0 ∷ 0 ∷ [])
        ≡ encode_all flag (header s count) ++ (coords ++ (0 ∷ 0 ∷ []))
  regrouped flag s count coords = rw (header_split flag s count) (simp append_assoc)

  packet :
      (flag : Bool) (s : Ship W) (g : Gun W)
      → length g < u16_mod
      → (Gun.make_buffer flag g >>= with_bullets flag s)
        ≡ some (filled flag (encode_all flag (header s (length g)) ++ trailer flag g) 0)
  unfolding with_bullets
  packet flag s [] h =
      rw (make_buffer-nil flag [] refl)
        (rw (append-nil (encode_all flag (header s 0))) (write-make flag 10 (header s 0) refl))
  packet flag s (b ∷ g) h =
      let head = encode_all flag (fields s) in
      let coords = encode_all flag (bullet_fields (b ∷ g)) in
      let count = length (b ∷ g) in
      let eight = length-encode_all flag (fields s) in
      rw (make_buffer-filled flag b g, encode_all-u16-cons)
        (rw (size-bullets flag head coords count) (
          rw (header_written flag s (length coords)) (
            rw (append_bullets-filled flag head coords count eight h)
              (ap (λ out. some (filled flag out 0)) (regrouped flag s count coords)))))

  -- The packet of a ship with fewer than 2 ^ 16 bullets is its header with their number, their
  -- coordinates, and, if there are any, two zero bytes that nothing asks for: the buffer is full,
  -- and no write faults.
  pub ship_packet :
      (flag : Bool) (s : Ship W)
      → length s.gun < u16_mod
      → make_buffer flag s
        ≡ some (filled flag (encode_all flag (header s (length s.gun)) ++ trailer flag s.gun) 0)
  unfolding make_buffer
  ship_packet flag s h = packet flag s s.gun h
