-- ===== src/SortedMap/Cells.antt =====
-- A map of sorted keys is what it holds at each key, and an operation on one key changes one cell.
use geoff.Prelude.{
  ℕ, suc, ◌≤◌, ◌<◌, ◌≡◌, ◌≢◌, refl, [], ◌∷◌, Option, none, some, arith, inl, inr, ◌⊎◌, sym, ◌∙◌,
  subst,
}
use mathlib.Core.Option.{some-injective, some-ne-none}
use geoff.SortedMap.{SortedMap, lookup, insert, remove}
use geoff.SortedMap.Laws.{
  Sorted, lookup_head, lookup_skip, lookup_below, lookup-insert, lookup-insert_other, lookup-remove,
  lookup-remove_other, insert-Sorted, remove-Sorted,
}

module _ {ℓ} {A : Type ℓ} where
  -- Two maps that hold the same.
  abbrev Same : SortedMap A → SortedMap A → Type ℓ
  Same m m' = (k : ℕ) → lookup k m ≡ lookup k m'

  head_key :
      (low k k' : ℕ) (a a' : A) (m m' : SortedMap A)
      → Sorted low ((k, a) ∷ m)
      → Sorted low ((k', a') ∷ m')
      → Same ((k, a) ∷ m) ((k', a') ∷ m')
      → k ≤ k'
      → k ≡ k'
  head_key low k k' a a' m m' (s, ss) (s', ss') h le =
      let cases : (k ≡ k') ⊎ (k < k') = omega arith in
      elim cases [
        | inl e ↦ e
        | inr lt ↦ absurd (
            some-ne-none a (
              sym (lookup_head k a m)
              ∙ h k
              ∙ lookup_below k k' ((k', a') ∷ m') lt (omega arith, ss')))
      ]

  equal_heads :
      (low k k' : ℕ) (a a' : A) (m m' : SortedMap A)
      → Sorted low ((k, a) ∷ m)
      → Sorted low ((k', a') ∷ m')
      → Same ((k, a) ∷ m) ((k', a') ∷ m')
      → k ≡ k'
  equal_heads low k k' a a' m m' s s' h =
      let cases : (k ≤ k') ⊎ (k' ≤ k) = omega arith in
      elim cases [
        | inl le ↦ head_key low k k' a a' m m' s s' h le
        | inr le ↦ sym (head_key low k' k a' a m' m s' s (λ j. sym (h j)) le)
      ]

  tails :
      (k : ℕ) (a a' : A) (m m' : SortedMap A)
      → Sorted (suc k) m
      → Sorted (suc k) m'
      → Same ((k, a) ∷ m) ((k, a') ∷ m')
      → Same m m'
  tails k a a' m m' s s' h j =
      let cases : (j ≤ k) ⊎ (k < j) = omega arith in
      elim cases [
        | inl le ↦
            lookup_below j (suc k) m (omega arith) s
            ∙ sym (lookup_below j (suc k) m' (omega arith) s')
        | inr lt ↦
            let ne : j ≢ k = omega arith in
            sym (lookup_skip j k a m ne) ∙ h j ∙ lookup_skip j k a' m' ne
      ]

  -- Maps that hold the same are the same.
  pub Sorted-ext :
      (low : ℕ) (m m' : SortedMap A) → Sorted low m → Sorted low m' → Same m m' → m ≡ m'
  unfolding lookup
  Sorted-ext low [] [] s s' h = refl
  Sorted-ext low [] ((k, a) ∷ m') s s' h =
      absurd (some-ne-none a (sym (lookup_head k a m') ∙ sym (h k)))
  Sorted-ext low ((k, a) ∷ m) [] s s' h = absurd (some-ne-none a (sym (lookup_head k a m) ∙ h k))
  Sorted-ext low ((k, a) ∷ m) ((k', a') ∷ m') (s, ss) (s', ss') h =
      let e = equal_heads low k k' a a' m m' (s, ss) (s', ss') h in
      let at_k = subst (λ x. Same ((k, a) ∷ m) ((x, a') ∷ m')) (sym e) h in
      let sorted = subst (λ x. Sorted (suc x) m') (sym e) ss' in
      let head : a ≡ a' =
        some-injective _ _ (sym (lookup_head k a m) ∙ at_k k ∙ lookup_head k a' m') in
      let tail = Sorted-ext (suc k) m m' ss sorted (tails k a a' m m' ss sorted at_k) in
      cc (e, head, tail)

  -- The cell at a key: it is left empty, or filled.
  abbrev pub write : ℕ → Option A → SortedMap A → SortedMap A
  write key none m = remove key m
  write key (some a) m = insert key a m

  pub lookup-write :
      (key : ℕ) (c : Option A) (m : SortedMap A) → Sorted 0 m → lookup key (write key c m) ≡ c
  lookup-write key none m s = lookup-remove key 0 m s
  lookup-write key (some a) m s = lookup-insert key a m

  pub lookup-write_other :
      (key k : ℕ) (c : Option A) (m : SortedMap A) → k ≢ key → lookup k (write key c m) ≡ lookup k m
  lookup-write_other key k none m ne = lookup-remove_other key k m ne
  lookup-write_other key k (some a) m ne = lookup-insert_other key k a m ne

  pub write-Sorted :
      (key : ℕ) (c : Option A) (m : SortedMap A) → Sorted 0 m → Sorted 0 (write key c m)
  write-Sorted key none m s = remove-Sorted key 0 m s
  write-Sorted key (some a) m s = insert-Sorted key 0 a m (omega arith) s

  -- To write what is there changes nothing.
  pub write_same :
      (key : ℕ) (c : Option A) (m : SortedMap A) → Sorted 0 m → lookup key m ≡ c → write key c m ≡ m
  write_same key c m s e = Sorted-ext 0 (write key c m) m (write-Sorted key c m s) s (λ k.
      let cases : (k ≡ key) ⊎ (k ≢ key) = omega arith in
      elim cases [
        | inl h ↦ rw h (lookup-write key c m s ∙ sym e)
        | inr ne ↦ lookup-write_other key k c m ne
      ])

  -- A cell that is filled twice.
  pub write_twice :
      (key : ℕ) (a b : A) (m : SortedMap A)
      → Sorted 0 m
      → insert key b (insert key a m) ≡ insert key b m
  write_twice key a b m s =
      Sorted-ext 0 (insert key b (insert key a m)) (insert key b m)
        (write-Sorted key (some b) _ (write-Sorted key (some a) m s))
        (write-Sorted key (some b) m s)
        (λ k.
          let cases : (k ≡ key) ⊎ (k ≢ key) = omega arith in
          elim cases [
            | inl h ↦ rw h (lookup-insert key b (insert key a m) ∙ sym (lookup-insert key b m))
            | inr ne ↦
                lookup-insert_other key k b (insert key a m) ne
                ∙ lookup-insert_other key k a m ne
                ∙ sym (lookup-insert_other key k b m ne)
          ])

  at_key :
      (key key' : ℕ) (c c' : Option A) (m : SortedMap A)
      → key ≢ key'
      → Sorted 0 m
      → lookup key (write key c (write key' c' m)) ≡ lookup key (write key' c' (write key c m))
  at_key key key' c c' m ne s =
      lookup-write key c (write key' c' m) (write-Sorted key' c' m s)
      ∙ sym (lookup-write key c m s)
      ∙ sym (lookup-write_other key' key c' (write key c m) ne)

  -- Writes to two cells commute.
  pub write_commute :
      (key key' : ℕ) (c c' : Option A) (m : SortedMap A)
      → key ≢ key'
      → Sorted 0 m
      → write key c (write key' c' m) ≡ write key' c' (write key c m)
  write_commute key key' c c' m ne s =
      Sorted-ext 0 (write key c (write key' c' m)) (write key' c' (write key c m))
        (write-Sorted key c _ (write-Sorted key' c' m s))
        (write-Sorted key' c' _ (write-Sorted key c m s))
        (λ k.
          let cases : (k ≡ key) ⊎ ((k ≡ key') ⊎ ((k ≢ key) × (k ≢ key'))) = omega arith in
          elim cases [
            | inl h ↦ rw h (at_key key key' c c' m ne s)
            | inr (inl h) ↦ rw h (sym (at_key key' key c' c m (λ e. ne (sym e)) s))
            | inr (inr (n1, n2)) ↦
                lookup-write_other key k c (write key' c' m) n1
                ∙ lookup-write_other key' k c' m n2
                ∙ sym (lookup-write_other key k c m n1)
                ∙ sym (lookup-write_other key' k c' (write key c m) n2)
          ])
