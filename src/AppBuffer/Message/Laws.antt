-- ===== src/AppBuffer/Message/Laws.antt =====
-- A run of setters appends the bytes of its fields, and faults exactly when they do not fit.
use geoff.Prelude.{
  ℕ, ◌+◌, ◌-◌, ◌≤◌, ◌<◌, ◌≡◌, refl, ap, Bool, List, [], ◌∷◌, ◌++◌, none, some, length,
  length-append, append-nil, append_assoc, arith, Bool-cases, leb, inl, inr, ◌∙◌,
}
use geoff.Words.{Host, stored16}
use geoff.Words.Laws.{length-stored16, length-stored32}
use geoff.AppBuffer.{make}
use geoff.AppBuffer.Filled.{
  filled, make-filled, set_uint8-filled, set_uint16-filled, set_uint32-filled,
  set_uint8-filled-none, set_uint16-filled-none, set_uint32-filled-none,
}
use geoff.AppBuffer.Message.{Field, u8, u16, u32, width, total, put, write, encode, encode_all}

module _ ⦃host : Host⦄ where
  pub length-encode : (flag : Bool) (f : Field) → length (encode flag f) ≡ width f
  unfolding encode
  length-encode flag (u8 v) = refl
  length-encode flag (u16 v) = length-stored16 host flag v
  length-encode flag (u32 v) = length-stored32 host flag v

  pub length-encode_all : (flag : Bool) (fs : List Field) → length (encode_all flag fs) ≡ total fs
  unfolding encode_all
  length-encode_all flag [] = refl
  length-encode_all flag (f ∷ fs) = omega (
    arith,
    length-append (encode flag f) (encode_all flag fs),
    length-encode flag f,
    length-encode_all flag fs,
  )

  pub encode_all-nil : (flag : Bool) → encode_all flag [] ≡ []
  unfolding encode_all
  encode_all-nil flag = refl

  pub encode_all-append :
      (flag : Bool) (fs gs : List Field)
      → encode_all flag (fs ++ gs) ≡ encode_all flag fs ++ encode_all flag gs
  unfolding encode_all
  encode_all-append flag [] gs = refl
  encode_all-append flag (f ∷ fs) gs = rw (encode_all-append flag fs gs, append_assoc)

  pub encode_all-u16 : (flag : Bool) (v : ℕ) → encode_all flag (u16 v ∷ []) ≡ stored16 host flag v
  unfolding encode_all encode
  encode_all-u16 flag v = append-nil (stored16 host flag v)

  pub encode_all-u16-cons :
      (flag : Bool) (v : ℕ) (fs : List Field)
      → encode_all flag (u16 v ∷ fs) ≡ stored16 host flag v ++ encode_all flag fs
  unfolding encode_all encode
  encode_all-u16-cons flag v fs = refl

  put-filled :
      (flag : Bool) (out : List ℕ) (n : ℕ) (f : Field)
      → width f ≤ n
      → put f (filled flag out n) ≡ some (filled flag (out ++ encode flag f) (n - width f))
  unfolding put encode
  put-filled flag out n (u8 v) h = set_uint8-filled flag out n v h
  put-filled flag out n (u16 v) h = set_uint16-filled flag out n v h
  put-filled flag out n (u32 v) h = set_uint32-filled flag out n v h

  put-filled-none :
      (flag : Bool) (out : List ℕ) (n : ℕ) (f : Field)
      → n < width f
      → put f (filled flag out n) ≡ none
  unfolding put
  put-filled-none flag out n (u8 v) h =
      let e : n ≡ 0 = omega arith in rw e (set_uint8-filled-none flag out v)
  put-filled-none flag out n (u16 v) h = set_uint16-filled-none flag out n v h
  put-filled-none flag out n (u32 v) h = set_uint32-filled-none flag out n v h

  -- If the fields of a message fit what is left of a buffer, every setter succeeds and the bytes of
  -- the fields follow what was written.
  pub write-filled :
      (flag : Bool) (out : List ℕ) (n : ℕ) (fs : List Field)
      → total fs ≤ n
      → write fs (filled flag out n) ≡ some (filled flag (out ++ encode_all flag fs) (n - total fs))
  unfolding write encode_all
  write-filled flag out n [] h = rw append-nil (ap (λ k. some (filled flag out k)) (omega arith))
  write-filled flag out n (f ∷ fs) h =
      let left : n - width f - total fs ≡ n - (width f + total fs) = omega arith in
      let rest = write-filled flag (out ++ encode flag f) (n - width f) fs (omega arith) in
      rw (put-filled flag out n f (omega arith))
        (rest ∙ rw (append_assoc out (encode flag f) (encode_all flag fs), left))

  -- If the fields of a message do not fit, one of the setters writes past the end of the buffer.
  pub write-filled-none :
      (flag : Bool) (out : List ℕ) (n : ℕ) (fs : List Field)
      → n < total fs
      → write fs (filled flag out n) ≡ none
  unfolding write
  write-filled-none flag out n [] h = absurd (omega arith)
  write-filled-none flag out n (f ∷ fs) h = elim (Bool-cases (leb (width f) n)) [
    | inl fits ↦
        rw (put-filled flag out n f (ground arith))
          (write-filled-none flag (out ++ encode flag f) (n - width f) fs (ground arith))
    | inr over ↦ rw (put-filled-none flag out n f (ground arith))
  ]

  -- A fresh buffer of just the size of the fields takes them all and is full.
  pub write-make :
      (flag : Bool) (n : ℕ) (fs : List Field)
      → n ≡ total fs
      → write fs (make n flag) ≡ some (filled flag (encode_all flag fs) 0)
  write-make flag n fs e =
      let full : n - total fs ≡ 0 = omega arith in
      rw make-filled (
        write-filled flag [] n fs (omega arith)
        ∙ ap (λ k. some (filled flag (encode_all flag fs) k)) full)
