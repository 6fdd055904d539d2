-- ===== src/AppBuffer/Memory.antt =====
-- A block of memory as a list of bytes: what `memcpy` and the accesses of lib/src/AppBuffer.cpp do
-- to it. `none` is an access past the end of the block.
use geoff.Prelude.{
  ℕ, zero, suc, ◌+◌, ◌-◌, ◌≤◌, ◌<◌, ◌≡◌, refl, ap, List, [], ◌∷◌, ◌++◌, Option, none, some, length,
  replicate, length-append, length-replicate, inl, inr, arith, ◌>>=◌, >>=-eq-some, Option-cases,
}

-- The bytes written over the beginning of the block.
overwrite : List ℕ → List ℕ → Option (List ℕ)
overwrite block [] = some block
overwrite [] (b ∷ bytes) = none
overwrite (x ∷ block) (b ∷ bytes) = do rest ← overwrite block bytes; some (b ∷ rest)

unfoldable pub store : List ℕ → ℕ → List ℕ → Option (List ℕ)
unfolding overwrite
store block zero bytes = overwrite block bytes
store [] (suc offset) bytes = none
store (x ∷ block) (suc offset) bytes = do rest ← store block offset bytes; some (x ∷ rest)

-- The first bytes of the block.
prefix : List ℕ → ℕ → Option (List ℕ)
prefix block zero = some []
prefix [] (suc n) = none
prefix (x ∷ block) (suc n) = do rest ← prefix block n; some (x ∷ rest)

unfoldable pub load : List ℕ → ℕ → ℕ → Option (List ℕ)
unfolding prefix
load block zero n = prefix block n
load [] (suc offset) n = none
load (x ∷ block) (suc offset) n = load block offset n

-- Written bytes are read back.
prefix-overwrite :
    (block bytes block' : List ℕ)
    → overwrite block bytes ≡ some block'
    → prefix block' (length bytes) ≡ some bytes
unfolding prefix overwrite
prefix-overwrite block [] block' e = refl
prefix-overwrite [] (b ∷ bytes) block' e = cc
prefix-overwrite (x ∷ block) (b ∷ bytes) block' e =
    let (rest, e1, e2) = >>=-eq-some (overwrite block bytes) _ e in
    ground (arith, prefix-overwrite block bytes rest e1)

pub load-store :
    (block : List ℕ) (offset : ℕ) (bytes block' : List ℕ)
    → store block offset bytes ≡ some block'
    → load block' offset (length bytes) ≡ some bytes
unfolding load store
load-store block zero bytes block' e = prefix-overwrite block bytes block' e
load-store [] (suc offset) bytes block' e = cc
load-store (x ∷ block) (suc offset) bytes block' e =
    let (rest, e1, e2) = >>=-eq-some (store block offset bytes) _ e in
    ground (arith, load-store block offset bytes rest e1)

-- A store keeps the size of the block, and is made only where the bytes fit.
length-overwrite :
    (block bytes block' : List ℕ)
    → overwrite block bytes ≡ some block'
    → (length block' ≡ length block) × (length bytes ≤ length block)
unfolding overwrite
length-overwrite block [] block' e = ground arith
length-overwrite [] (b ∷ bytes) block' e = cc
length-overwrite (x ∷ block) (b ∷ bytes) block' e =
    let (rest, e1, e2) = >>=-eq-some (overwrite block bytes) _ e in
    ground (arith, length-overwrite block bytes rest e1)

pub length-store :
    (block : List ℕ) (offset : ℕ) (bytes block' : List ℕ)
    → store block offset bytes ≡ some block'
    → (length block' ≡ length block) × (offset + length bytes ≤ length block)
unfolding store
length-store block zero bytes block' e = ground (arith, length-overwrite block bytes block' e)
length-store [] (suc offset) bytes block' e = cc
length-store (x ∷ block) (suc offset) bytes block' e =
    let (rest, e1, e2) = >>=-eq-some (store block offset bytes) _ e in
    ground (arith, length-store block offset bytes rest e1)

overwrite-some :
    (block bytes : List ℕ)
    → length bytes ≤ length block
    → (block' : List ℕ) × (overwrite block bytes ≡ some block')
unfolding overwrite
overwrite-some block [] h = (block, refl)
overwrite-some [] (b ∷ bytes) h = absurd (omega arith)
overwrite-some (x ∷ block) (b ∷ bytes) h =
    let (rest, e) = overwrite-some block bytes (omega arith) in (b ∷ rest, rw e)

pub store-some :
    (block : List ℕ) (offset : ℕ) (bytes : List ℕ)
    → offset + length bytes ≤ length block
    → (block' : List ℕ) × (store block offset bytes ≡ some block')
unfolding store
store-some block zero bytes h = overwrite-some block bytes (omega arith)
store-some [] (suc offset) bytes h = absurd (omega arith)
store-some (x ∷ block) (suc offset) bytes h =
    let (rest, e) = store-some block offset bytes (omega arith) in (x ∷ rest, rw e)

-- Behind what has been written the block is overwritten from its beginning.
overwrite-replicate :
    (n : ℕ) (bytes : List ℕ)
    → length bytes ≤ n
    → overwrite (replicate n 0) bytes ≡ some (bytes ++ replicate (n - length bytes) 0)
unfolding overwrite
overwrite-replicate n [] h = ap (λ k. some (replicate k 0)) (omega arith)
overwrite-replicate zero (b ∷ bytes) h = absurd (omega arith)
overwrite-replicate (suc n) (b ∷ bytes) h =
    let same : suc n - suc (length bytes) ≡ n - length bytes = omega arith in
    rw (overwrite-replicate n bytes (omega arith), same)

pub store-append :
    (out : List ℕ) (n : ℕ) (bytes : List ℕ)
    → length bytes ≤ n
    → store (out ++ replicate n 0) (length out) bytes
      ≡ some (out ++ (bytes ++ replicate (n - length bytes) 0))
unfolding store
store-append [] n bytes h = overwrite-replicate n bytes h
store-append (x ∷ out) n bytes h = rw (store-append out n bytes h)

pub store-append_none :
    (out : List ℕ) (n : ℕ) (bytes : List ℕ)
    → n < length bytes
    → store (out ++ replicate n 0) (length out) bytes ≡ none
store-append_none out n bytes h =
    elim (Option-cases (store (out ++ replicate n 0) (length out) bytes)) [
      | inl e ↦ e
      | inr (block', e) ↦ absurd (
          omega (
            arith,
            length-store _ _ _ block' e,
            length-append out (replicate n 0),
            length-replicate {A = ℕ} n 0,
          ))
    ]

prefix-append : (bytes rest : List ℕ) → prefix (bytes ++ rest) (length bytes) ≡ some bytes
unfolding prefix
prefix-append [] rest = refl
prefix-append (b ∷ bytes) rest = rw (prefix-append bytes rest)

pub load-append :
    (out bytes rest : List ℕ)
    → load (out ++ (bytes ++ rest)) (length out) (length bytes) ≡ some bytes
unfolding load
load-append [] bytes rest = prefix-append bytes rest
load-append (x ∷ out) bytes rest = load-append out bytes rest

-- Bytes in the middle of a block are replaced by as many others.
overwrite-replace :
    (old bytes rest : List ℕ)
    → length old ≡ length bytes
    → overwrite (old ++ rest) bytes ≡ some (bytes ++ rest)
unfolding overwrite
overwrite-replace [] [] rest e = refl
overwrite-replace [] (b ∷ bytes) rest e = absurd (omega arith)
overwrite-replace (x ∷ old) [] rest e = absurd (omega arith)
overwrite-replace (x ∷ old) (b ∷ bytes) rest e = rw (overwrite-replace old bytes rest (omega arith))

pub store-replace :
    (out old bytes rest : List ℕ)
    → length old ≡ length bytes
    → store (out ++ (old ++ rest)) (length out) bytes ≡ some (out ++ (bytes ++ rest))
unfolding store
store-replace [] old bytes rest e = overwrite-replace old bytes rest e
store-replace (x ∷ out) old bytes rest e = rw (store-replace out old bytes rest e)
