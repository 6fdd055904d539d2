-- ===== src/SortedMap/Laws.antt =====
-- The laws of the operations of std::map.
use geoff.Prelude.{ℕ, suc, ◌+◌, ◌≤◌, ◌<◌, ◌≡◌, ◌≢◌, refl, [], ◌∷◌, none, some, length, arith}
use geoff.SortedMap.{SortedMap, lookup, insert, remove}

-- The keys rise, from `low` on.
abbrev pub Sorted {ℓ} : {A : Type ℓ} → ℕ → SortedMap A → Type 0
Sorted low [] = Unit
Sorted low ((k, a) ∷ m) = (low ≤ k) × Sorted (suc k) m

module _ {ℓ} {A : Type ℓ} where
  pub Sorted-mono : (low low' : ℕ) (m : SortedMap A) → low' ≤ low → Sorted low m → Sorted low' m
  Sorted-mono low low' [] h s = tt
  Sorted-mono low low' ((k, a) ∷ m) h (s, ss) = (omega arith, ss)

  pub lookup_head : (key : ℕ) (a : A) (m : SortedMap A) → lookup key ((key, a) ∷ m) ≡ some a
  unfolding lookup
  lookup_head key a m = ground arith

  pub lookup_skip :
      (key k : ℕ) (a : A) (m : SortedMap A) → key ≢ k → lookup key ((k, a) ∷ m) ≡ lookup key m
  unfolding lookup
  lookup_skip key k a m ne = ground arith

  pub lookup-insert : (key : ℕ) (a : A) (m : SortedMap A) → lookup key (insert key a m) ≡ some a
  unfolding lookup insert
  lookup-insert key a [] = ground arith
  lookup-insert key a ((k, b) ∷ m) = ground (arith, lookup-insert key a m)

  pub lookup-insert_other :
      (key key' : ℕ) (a : A) (m : SortedMap A)
      → key' ≢ key
      → lookup key' (insert key a m) ≡ lookup key' m
  unfolding lookup insert
  lookup-insert_other key key' a [] h = ground arith
  lookup-insert_other key key' a ((k, b) ∷ m) h = ground (arith, lookup-insert_other key key' a m h)

  pub lookup_below :
      (key low : ℕ) (m : SortedMap A) → key < low → Sorted low m → lookup key m ≡ none
  unfolding lookup
  lookup_below key low [] h s = refl
  lookup_below key low ((k, a) ∷ m) h (s, ss) =
      ground (arith, lookup_below key (suc k) m (omega arith) ss)

  pub lookup-remove :
      (key low : ℕ) (m : SortedMap A) → Sorted low m → lookup key (remove key m) ≡ none
  unfolding lookup remove
  lookup-remove key low [] s = refl
  lookup-remove key low ((k, a) ∷ m) (s, ss) =
      ground (arith, lookup_below key (suc k) m, lookup-remove key (suc k) m ss)

  pub lookup-remove_other :
      (key key' : ℕ) (m : SortedMap A) → key' ≢ key → lookup key' (remove key m) ≡ lookup key' m
  unfolding lookup remove
  lookup-remove_other key key' [] h = refl
  lookup-remove_other key key' ((k, b) ∷ m) h = ground (arith, lookup-remove_other key key' m h)

  pub insert-Sorted :
      (key low : ℕ) (a : A) (m : SortedMap A)
      → low ≤ key
      → Sorted low m
      → Sorted low (insert key a m)
  unfolding insert
  insert-Sorted key low a [] h s = (h, tt)
  insert-Sorted key low a ((k, b) ∷ m) h (s, ss) =
      ground (arith, λ (lt : suc k ≤ key). insert-Sorted key (suc k) a m lt ss)

  pub remove-Sorted : (key low : ℕ) (m : SortedMap A) → Sorted low m → Sorted low (remove key m)
  unfolding remove
  remove-Sorted key low [] s = tt
  remove-Sorted key low ((k, b) ∷ m) (s, ss) =
      ground (arith, Sorted-mono (suc k) low m, remove-Sorted key (suc k) m ss)

  pub length-insert :
      (key : ℕ) (a : A) (m : SortedMap A)
      → lookup key m ≡ none
      → length (insert key a m) ≡ length m + 1
  unfolding lookup insert
  length-insert key a [] h = omega arith
  length-insert key a ((k, b) ∷ m) h = ground (arith, length-insert key a m)
