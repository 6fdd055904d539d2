-- ===== src/UniquePtrTest/Deletes.antt =====
-- What the deletions of UniquePtrTest/UniquePtrTest.cpp leave.
use geoff.Prelude.{
  ◌>>=◌, ℕ, suc, ◌<◌, ◌≡◌, ◌≢◌, refl, List, [], ◌∷◌, Option, none, some, arith, ap, ◌∙◌, All,
  Bool-cases, inl, inr, if◌then◌else◌,
}
use geoff.Double.{Double}
use geoff.Double.Milli.{milli_double}
use geoff.SortedMap.{SortedMap, lookup, remove}
use geoff.SortedMap.Laws.{Sorted, lookup_head, lookup_skip}
use geoff.UniquePtrTest.{
  Rock, erased, delete_one, delete_all, is_one, to_delete, main, create_one, empty_field,
}

remove_head {ℓ} : {A : Type ℓ} (key : ℕ) (a : A) (m : SortedMap A) → remove key ((key, a) ∷ m) ≡ m
unfolding remove
remove_head key a m = ground arith

remove_skip {ℓ} :
    {A : Type ℓ} (key k : ℕ) (a : A) (m : SortedMap A)
    → key ≢ k
    → remove key ((k, a) ∷ m) ≡ (k, a) ∷ remove key m
unfolding remove
remove_skip key k a m ne = ground arith

module _ {W : Type 0} where
  abbrev behind : ℕ → Rock W → Option (SortedMap (Rock W)) → Option (SortedMap (Rock W))
  behind k r none = none
  behind k r (some rocks) = some ((k, r) ∷ rocks)

  erased-behind :
      (it k : ℕ) (r : Rock W) (o : Option (Rock W)) (rocks : SortedMap (Rock W))
      → it ≢ k
      → erased it o ((k, r) ∷ rocks) ≡ behind k r (erased it o rocks)
  unfolding erased
  erased-behind it k r none rocks ne = refl
  erased-behind it k r (some a) rocks ne = ap some (remove_skip it k r rocks ne)

  delete_one-behind :
      (it k : ℕ) (r : Rock W) (rocks : SortedMap (Rock W))
      → it ≢ k
      → delete_one it ((k, r) ∷ rocks) ≡ behind k r (delete_one it rocks)
  unfolding delete_one
  delete_one-behind it k r rocks ne =
      ap (λ o. erased it o ((k, r) ∷ rocks)) (lookup_skip it k r rocks ne)
      ∙ erased-behind it k r (lookup it rocks) rocks ne

  delete_one-head :
      (k : ℕ) (r : Rock W) (rocks : SortedMap (Rock W)) → delete_one k ((k, r) ∷ rocks) ≡ some rocks
  unfolding delete_one erased
  delete_one-head k r rocks =
      ap (λ o. erased k o ((k, r) ∷ rocks)) (lookup_head k r rocks)
      ∙ ap some (remove_head k r rocks)

  -- The deletion of later nodes leaves an earlier one where it is.
  delete_all-behind :
      (dt : List ℕ) (k : ℕ) (r : Rock W) (rocks : SortedMap (Rock W))
      → All (λ it. k < it) dt
      → delete_all dt ((k, r) ∷ rocks) ≡ behind k r (delete_all dt rocks)
  unfolding delete_all
  delete_all-behind [] k r rocks h = refl
  delete_all-behind (it ∷ dt) k r rocks (lt, h) =
      ap (λ o. o >>= delete_all dt) (delete_one-behind it k r rocks (λ e. absurd (omega arith)))
      ∙ go (delete_one it rocks) (λ rocks'. delete_all-behind dt k r rocks' h)
    where
      go :
          (o : Option (SortedMap (Rock W)))
          → ((rocks' : SortedMap (Rock W))
              → delete_all dt ((k, r) ∷ rocks') ≡ behind k r (delete_all dt rocks'))
          → (behind k r o >>= delete_all dt) ≡ behind k r (o >>= delete_all dt)
      go none ih = refl
      go (some rocks') ih = ih rocks'

module _ {W : Type 0} ⦃d : Double W⦄ where
  open d use {of_nat}

  -- The rocks that are not to be deleted.
  unfoldable pub others : SortedMap (Rock W) → SortedMap (Rock W)
  others [] = []
  others ((it, rock) ∷ rocks) =
      let rest = others rocks in if is_one rock then rest else (it, rock) ∷ rest

  to_delete-after :
      (low low' : ℕ) (rocks : SortedMap (Rock W))
      → low < low'
      → Sorted low' rocks
      → All (λ it. low < it) (to_delete rocks)
  unfolding to_delete
  to_delete-after low low' [] lt s = tt
  to_delete-after low low' ((k, r) ∷ rocks) lt (le, s) =
      let rest = to_delete-after low (suc k) rocks (omega arith) s in
      elim (Bool-cases (is_one r)) [ inl e ↦ rw e (omega arith, rest) | inr e ↦ rw e rest ]

  -- In a list of nodes whose addresses rise, as those of main do, no iterator that was stored is stale:
  -- the deletions leave the rocks that were not to be deleted, in their order, as if the list had been
  -- filtered.
  pub delete_all-to_delete :
      (low : ℕ) (rocks : SortedMap (Rock W))
      → Sorted low rocks
      → delete_all (to_delete rocks) rocks ≡ some (others rocks)
  unfolding delete_all to_delete others
  delete_all-to_delete low [] s = refl
  delete_all-to_delete low ((k, r) ∷ rocks) (le, s) =
      let rest = delete_all-to_delete (suc k) rocks s in
      elim (Bool-cases (is_one r)) [
        | inl e ↦
            rw e (ap (λ o. o >>= delete_all (to_delete rocks)) (delete_one-head k r rocks) ∙ rest)
        | inr e ↦ rw e (
            delete_all-behind (to_delete rocks) k r rocks
              (to_delete-after k (suc k) rocks (omega arith) s)
            ∙ ap (behind k r) rest)
      ]

  -- The iterators that main stores are to three nodes.
  main-others : (rocks : SortedMap (Rock W)) × (main ≡ some (others rocks)) × Sorted 0 rocks
  unfolding main create_one
  main-others =
      let rf =
        create_one (of_nat 2) (of_nat 2)
          (create_one (of_nat 1) (of_nat 1) (create_one (of_nat 0) (of_nat 0) empty_field)) in
      let sorted : Sorted 0 rf.rocks = (omega arith, (omega arith, (omega arith, tt))) in
      (rf.rocks, delete_all-to_delete 0 rf.rocks sorted, sorted)
