-- ===== src/AppBuffer/RoundTrip.antt =====
-- The accessors of lib/src/AppBuffer.cpp at a given offset.
use geoff.Prelude.{ℕ, ◌+◌, ◌%◌, ◌≤◌, ◌<◌, ◌≡◌, ◌↔◌, true, [], ◌∷◌, some, arith, >>=-eq-some}
use geoff.Words.{Host, u8_mod, u16_mod, u32_mod, stored16, stored32}
use geoff.Words.Laws.{
  loaded16-stored16, loaded32-stored32, length-stored16, length-stored32, network16, network32,
  stored16_network, stored32_network,
}
use geoff.AppBuffer.Memory.{store, load, load-store, length-store, store-some}
use geoff.AppBuffer.{
  AppBuffer, size, get_uint8_at, get_uint16_at, get_uint32_at, set_uint8_at, set_uint16_at,
  set_uint32_at,
}

module _ ⦃host : Host⦄ where
  -- What `set_uint8(offset, v)` writes `get_uint8(offset)` reads.
  pub get_uint8_at-set_uint8_at :
      (offset v : ℕ) (ab ab' : AppBuffer)
      → v < u8_mod
      → set_uint8_at offset v ab ≡ some ab'
      → get_uint8_at offset ab' ≡ some v
  unfolding get_uint8_at set_uint8_at
  get_uint8_at-set_uint8_at offset v ab ab' h e =
      let (buff, e1, e2) = >>=-eq-some (store ab.buff offset (v % u8_mod ∷ [])) _ e in
      ground (arith, load-store ab.buff offset (v % u8_mod ∷ []) buff e1)

  -- What a `set_uint16(offset, v)` that does not fault writes `get_uint16(offset)` reads, if v is a
  -- `uint16_t`, on any host and for any client.
  pub get_uint16_at-set_uint16_at :
      (offset v : ℕ) (ab ab' : AppBuffer)
      → v < u16_mod
      → set_uint16_at offset v ab ≡ some ab'
      → get_uint16_at offset ab' ≡ some v
  unfolding get_uint16_at set_uint16_at
  get_uint16_at-set_uint16_at offset v ab ab' h e =
      let bytes = stored16 host ab.is_little_endian v in
      let (buff, e1, e2) = >>=-eq-some (store ab.buff offset bytes) _ e in
      ground (
        arith,
        load-store ab.buff offset bytes buff e1,
        length-stored16 host ab.is_little_endian v,
        loaded16-stored16 host ab.is_little_endian v h,
      )

  -- What a `set_uint32(offset, v)` that does not fault writes `get_uint32(offset)` reads, if v is a
  -- `uint32_t`, on any host and for any client.
  pub get_uint32_at-set_uint32_at :
      (offset v : ℕ) (ab ab' : AppBuffer)
      → v < u32_mod
      → set_uint32_at offset v ab ≡ some ab'
      → get_uint32_at offset ab' ≡ some v
  unfolding get_uint32_at set_uint32_at
  get_uint32_at-set_uint32_at offset v ab ab' h e =
      let bytes = stored32 host ab.is_little_endian v in
      let (buff, e1, e2) = >>=-eq-some (store ab.buff offset bytes) _ e in
      ground (
        arith,
        load-store ab.buff offset bytes buff e1,
        length-stored32 host ab.is_little_endian v,
        loaded32-stored32 host ab.is_little_endian v h,
      )

  -- With the flag set the two bytes in the buffer are in network order, whatever the host.
  pub set_uint16_at_network :
      (offset v : ℕ) (ab ab' : AppBuffer)
      → ab.is_little_endian ≡ true
      → set_uint16_at offset v ab ≡ some ab'
      → load ab'.buff offset 2 ≡ some (network16 v)
  unfolding set_uint16_at
  set_uint16_at_network offset v ab ab' flag e =
      let bytes = stored16 host ab.is_little_endian v in
      let (buff, e1, e2) = >>=-eq-some (store ab.buff offset bytes) _ e in
      ground (
        arith,
        load-store ab.buff offset bytes buff e1,
        length-stored16 host ab.is_little_endian v,
        stored16_network host v,
      )

  -- With the flag set the four bytes in the buffer are in network order, whatever the host.
  pub set_uint32_at_network :
      (offset v : ℕ) (ab ab' : AppBuffer)
      → ab.is_little_endian ≡ true
      → set_uint32_at offset v ab ≡ some ab'
      → load ab'.buff offset 4 ≡ some (network32 v)
  unfolding set_uint32_at
  set_uint32_at_network offset v ab ab' flag e =
      let bytes = stored32 host ab.is_little_endian v in
      let (buff, e1, e2) = >>=-eq-some (store ab.buff offset bytes) _ e in
      ground (
        arith,
        load-store ab.buff offset bytes buff e1,
        length-stored32 host ab.is_little_endian v,
        stored32_network host v,
      )

  -- `set_uint16(offset, v)` stays inside `m_buff` exactly when both bytes fit, and then the size
  -- stays.
  pub set_uint16_at_iff :
      (offset v : ℕ) (ab : AppBuffer)
      → ((ab' : AppBuffer) × (set_uint16_at offset v ab ≡ some ab') × (size ab' ≡ size ab))
        ↔ (offset + 2 ≤ size ab)
  unfolding set_uint16_at size
  set_uint16_at_iff offset v ab = (
    λ r.
        let bytes = stored16 host ab.is_little_endian v in
        let (buff, e1, e2) = >>=-eq-some (store ab.buff offset bytes) _ r.1 in
        omega (
          arith,
          length-store ab.buff offset bytes buff e1,
          length-stored16 host ab.is_little_endian v,
        ),
    λ fits.
        let bytes = stored16 host ab.is_little_endian v in
        let (buff, e) =
          store-some ab.buff offset bytes
            (omega (arith, length-stored16 host ab.is_little_endian v)) in
        (record ab { buff = buff }, rw e, (length-store ab.buff offset bytes buff e).0),
  )
