-- ===== src/Web/Family.antt =====
-- Families of objects by their numbers, as Web keeps the web sockets.
use geoff.Prelude.{ℕ, ◌≡◌, ◌≢◌, arith, inl, inr, ◌⊎◌, ◌==◌, if◌then◌else◌, sym, subst}
use std.Path.{fun_ext}

module _ {ℓ} {A : Type ℓ} where
  unfoldable pub update : (ℕ → A) → ℕ → A → ℕ → A
  update f i a j = if j == i then a else f j

  pub update_same : (f : ℕ → A) (i : ℕ) (a : A) → update f i a i ≡ a
  unfolding update
  update_same f i a = ground arith

  pub update_other : (f : ℕ → A) (i j : ℕ) (a : A) → j ≢ i → update f i a j ≡ f j
  unfolding update
  update_other f i j a ne = ground arith

  -- What holds of the new object and of the others holds of all.
  pub update-all {κ} :
      (P : ℕ → A → Type κ) (f : ℕ → A) (i : ℕ) (a : A)
      → P i a
      → ((j : ℕ) → j ≢ i → P j (f j))
      → (j : ℕ) → P j (update f i a j)
  update-all P f i a new old j =
      let same : (j ≡ i) ⊎ (j ≢ i) = omega arith in
      elim same [
        | inl e ↦
            subst (λ k. P k (update f i a k)) (sym e) (subst (P i) (sym (update_same f i a)) new)
        | inr ne ↦ subst (P j) (sym (update_other f i j a ne)) (old j ne)
      ]

  pub update_commute :
      (f : ℕ → A) (i j : ℕ) (a b : A)
      → i ≢ j
      → update (update f i a) j b ≡ update (update f j b) i a
  unfolding update
  update_commute f i j a b ne = fun_ext (λ k. ground arith)
