-- ===== src/AppBuffer/Filled.antt =====
-- A buffer that has been filled from its beginning: some bytes, then zeros. The writers and the
-- copying constructors of lib/src/AppBuffer.cpp take such a buffer to such a buffer.
use geoff.Prelude.{
  ℕ, ◌+◌, ◌-◌, ◌%◌, ◌≤◌, ◌<◌, ◌≡◌, refl, Bool, List, [], ◌∷◌, ◌++◌, none, some, length, replicate,
  length-append, append_assoc, arith,
}
use geoff.Words.{Host, u8_mod, stored16, stored32}
use geoff.Words.Laws.{length-stored16, length-stored32}
use geoff.AppBuffer.Memory.{store, load, store-append, store-append_none, load-append}
use geoff.AppBuffer.{AppBuffer, make, extend, concat, set_uint8, set_uint16, set_uint32}

-- `out` has been written, `n` bytes are left.
abbrev pub filled : Bool → List ℕ → ℕ → AppBuffer
filled flag out n = record {
  buff = out ++ replicate n 0;
  is_little_endian = flag;
  read_offset = 0;
  write_offset = length out;
}

pub make-filled : (n : ℕ) (flag : Bool) → make n flag ≡ filled flag [] n
unfolding make
make-filled n flag = refl

load_written : (out rest : List ℕ) → load (out ++ rest) 0 (length out) ≡ some out
load_written out rest = load-append [] out rest

-- A copy of `out` into fresh memory with `n` bytes more.
store_fresh :
    (out : List ℕ) (n : ℕ)
    → store (replicate (length out + n) 0) 0 out ≡ some (out ++ replicate n 0)
store_fresh out n =
    let left : length out + n - length out ≡ n = omega arith in
    rw (store-append [] (length out + n) out (omega arith), left)

-- AppBuffer(a, additional) holds what was written to a, has exactly `additional` bytes left, all
-- zero, and appends to it.
pub extend-filled :
    (flag flag' : Bool) (out : List ℕ) (n more : ℕ)
    → extend (filled flag out n) more flag' ≡ some (filled flag' out more)
unfolding extend
extend-filled flag flag' out n more =
    rw (load_written out (replicate n 0)) (rw (store_fresh out more))

-- AppBuffer(a1, a2) is full of what was written to a1, followed by what was written to a2: the unused
-- ends of both are dropped.
pub concat-filled :
    (flag flag1 flag2 : Bool) (out1 out2 : List ℕ) (n1 n2 : ℕ)
    → concat (filled flag1 out1 n1) (filled flag2 out2 n2) flag
      ≡ some (filled flag (out1 ++ out2) 0)
unfolding concat
concat-filled flag flag1 flag2 out1 out2 n1 n2 =
    rw (load_written out1 (replicate n1 0), store_fresh out1 (length out2))
      (rw (load_written out2 (replicate n2 0)) (
        ground (
          arith,
          store-append out1 (length out2) out2,
          length-append out1 out2,
          append_assoc out1 out2 [],
        )))

module _ ⦃host : Host⦄ where
  pub set_uint8-filled :
      (flag : Bool) (out : List ℕ) (n v : ℕ)
      → 1 ≤ n
      → set_uint8 v (filled flag out n) ≡ some (filled flag (out ++ (v % u8_mod ∷ [])) (n - 1))
  unfolding set_uint8
  set_uint8-filled flag out n v h =
      let bytes = v % u8_mod ∷ [] in
      ground (
        arith,
        store-append out n bytes,
        length-append out bytes,
        append_assoc out bytes (replicate (n - 1) 0),
      )

  pub set_uint16-filled :
      (flag : Bool) (out : List ℕ) (n v : ℕ)
      → 2 ≤ n
      → set_uint16 v (filled flag out n) ≡ some (filled flag (out ++ stored16 host flag v) (n - 2))
  unfolding set_uint16
  set_uint16-filled flag out n v h =
      let bytes = stored16 host flag v in
      ground (
        arith,
        store-append out n bytes,
        length-append out bytes,
        length-stored16 host flag v,
        append_assoc out bytes (replicate (n - 2) 0),
      )

  pub set_uint32-filled :
      (flag : Bool) (out : List ℕ) (n v : ℕ)
      → 4 ≤ n
      → set_uint32 v (filled flag out n) ≡ some (filled flag (out ++ stored32 host flag v) (n - 4))
  unfolding set_uint32
  set_uint32-filled flag out n v h =
      let bytes = stored32 host flag v in
      ground (
        arith,
        store-append out n bytes,
        length-append out bytes,
        length-stored32 host flag v,
        append_assoc out bytes (replicate (n - 4) 0),
      )

  pub set_uint8-filled-none :
      (flag : Bool) (out : List ℕ) (v : ℕ) → set_uint8 v (filled flag out 0) ≡ none
  unfolding set_uint8
  set_uint8-filled-none flag out v =
      ground (arith, store-append_none out 0 (v % u8_mod ∷ []) (omega arith))

  pub set_uint16-filled-none :
      (flag : Bool) (out : List ℕ) (n v : ℕ) → n < 2 → set_uint16 v (filled flag out n) ≡ none
  unfolding set_uint16
  set_uint16-filled-none flag out n v h =
      ground (arith, store-append_none out n (stored16 host flag v), length-stored16 host flag v)

  pub set_uint32-filled-none :
      (flag : Bool) (out : List ℕ) (n v : ℕ) → n < 4 → set_uint32 v (filled flag out n) ≡ none
  unfolding set_uint32
  set_uint32-filled-none flag out n v h =
      ground (arith, store-append_none out n (stored32 host flag v), length-stored32 host flag v)
