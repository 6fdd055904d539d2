-- ===== src/Web/Ready.antt =====
-- The handlers that a tick posts (WebsockSession::OnTxReady in lib/src/WebsockSession.cpp, called by
-- Session::TickEvent in apps/asteroids/src/Session.cpp).
use geoff.Prelude.{
  ℕ, suc, ◌≡◌, ◌≢◌, List, [], ◌∷◌, Option, none, some, arith, inl, inr, ◌⊎◌, sym, ◌∙◌, refl, All,
}
use mathlib.Core.Option.{some-ne-none}
use geoff.SortedMap.{SortedMap, lookup}
use geoff.SortedMap.Laws.{Sorted, lookup_below, lookup_head, lookup_skip}
use geoff.Sessions.{SessionType}
use geoff.Web.{ready, ready_at}

-- What stands behind the first entry is found.
lookup-tail {ℓ} :
    {A : Type ℓ} (key k : ℕ) (a b : A) (m : SortedMap A)
    → Sorted (suc k) m
    → lookup key m ≡ some b
    → lookup key ((k, a) ∷ m) ≡ some b
lookup-tail key k a b m s e =
    let same : (key ≡ k) ⊎ (key ≢ k) = omega arith in
    elim same [
      | inl eq ↦ absurd (some-ne-none _ (sym e ∙ lookup_below key (suc k) m (omega arith) s))
      | inr ne ↦ lookup_skip key k a m ne ∙ e
    ]

All-ready_at :
    (P : ℕ × ℕ → Type 0) (id : ℕ) (o : Option ℕ) (posts : List (ℕ × ℕ))
    → ((k : ℕ) → o ≡ some k → P (k, id))
    → All P posts
    → All P (ready_at id o posts)
All-ready_at P id none posts h all = all
All-ready_at P id (some k) posts h all = (h k refl, all)

module _ {S W : Type 0} (t : SessionType S W) (P : ℕ × ℕ → Type 0) where
  -- What holds of the callbacks of the sessions that are found holds of what is posted.
  pub All-ready :
      (low : ℕ) (map : SortedMap (Option S))
      → Sorted low map
      → ((id k : ℕ) (x : S) → lookup id map ≡ some (some x) → t.on_tx_ready x ≡ some k → P (k, id))
      → All P (ready t map)
  unfolding ready
  All-ready low [] s h = tt
  All-ready low ((id, none) ∷ map) (_, s) h =
      All-ready (suc id) map s
        (λ id' k x e c. h id' k x (lookup-tail id' id none (some x) map s e) c)
  All-ready low ((id, some y) ∷ map) (_, s) h =
      All-ready_at P id (t.on_tx_ready y) (ready t map)
        (λ k c. h id k y (lookup_head id (some y) map) c)
        (All-ready (suc id) map s
          (λ id' k x e c. h id' k x (lookup-tail id' id (some y) (some x) map s e) c))
