-- ===== src/Kyc/Pending.antt =====
-- The pending requests of a customer, as a list, and how closing a request moves it.
use otsem_api.Common.{
  ◌≡◌, refl, Bool, true, false, not, some, List, [], ◌∷◌, arith, find, any, select,
}
use otsem_api.Database.Tables.{update_where}

module _ {A : Type 0} (p q : A → Bool) where
  -- Writing rows so that none of them fits drops them from the selection.
  pub select-update_where :
      (f : A → A)
      → ((x : A) → p (f x) ≡ false)
      → (xs : List A) → select p (update_where q f xs) ≡ select (λ x. not (q x)) (select p xs)
  unfolding select update_where
  select-update_where f closes [] = refl
  select-update_where f closes (x ∷ xs) = ground (arith, closes x, select-update_where f closes xs)

  -- A row that is found and fits is found in the selection.
  pub find-select :
      (xs : List A) {x : A} → find q xs ≡ some x → p x ≡ true → find q (select p xs) ≡ some x
  unfolding select find
  find-select [] e h = absurd (cc)
  find-select (y ∷ xs) {x} e h = ground (arith, find-select xs {x = x})

module _ {A : Type 0} (p : A → Bool) where
  pub select_none : (xs : List A) → any p xs ≡ false → select p xs ≡ []
  unfolding select any
  select_none [] h = refl
  select_none (x ∷ xs) h = ground (arith, select_none xs)
