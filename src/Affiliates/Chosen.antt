-- ===== src/Affiliates/Chosen.antt =====
-- The ids of the rows that a filter selects name these rows and no others.
use otsem_api.Common.{
  ℕ, ◌≡◌, refl, sym, subst, ==_refl, ◌∙◌, Bool, true, false, none, List, [], ◌∷◌, map, arith, ◌==◌,
  find, any, select, All, Bool-cases, inl, inr,
}
use otsem_api.Database.Tables.{by, HasDistinct}
use otsem_api.Affiliates.Commissions.{is_in}

module _ {A : Type 0} (key : A → ℕ) (p : A → Bool) where
  abbrev pub keys : List A → List ℕ
  keys xs = map key (select p xs)

  absent : (k : ℕ) (xs : List A) → find (by key k) xs ≡ none → is_in (keys xs) k ≡ false
  unfolding find select any
  absent k [] e = refl
  absent k (x ∷ xs) e = ground (arith, absent k xs)

  apart : (k : ℕ) (xs : List A) → find (by key k) xs ≡ none → All (λ x. (k == key x) ≡ false) xs
  unfolding find
  apart k [] e = tt
  apart k (x ∷ xs) e = (ground arith, apart k xs (ground arith))

  grow :
      (k : ℕ) (ids : List ℕ) (xs : List A)
      → All (λ x. (k == key x) ≡ false) xs
      → All (λ x. is_in ids (key x) ≡ p x) xs
      → All (λ x. is_in (k ∷ ids) (key x) ≡ p x) xs
  unfolding any
  grow k ids [] n h = tt
  grow k ids (x ∷ xs) n h = (rw n.0 h.0, grow k ids xs n.1 h.1)

  keys_of_fitting : (x : A) (xs : List A) → p x ≡ true → keys (x ∷ xs) ≡ key x ∷ keys xs
  unfolding select
  keys_of_fitting x xs e = rw e refl

  keys_of_other : (x : A) (xs : List A) → p x ≡ false → keys (x ∷ xs) ≡ keys xs
  unfolding select
  keys_of_other x xs e = rw e refl

  head_in : (k : ℕ) (ids : List ℕ) → is_in (k ∷ ids) k ≡ true
  unfolding any
  head_in k ids = rw (==_refl k) refl

  pub is_in-keys : (xs : List A) → HasDistinct key xs → All (λ x. is_in (keys xs) (key x) ≡ p x) xs
  is_in-keys [] d = tt
  is_in-keys (x ∷ xs) d = elim (Bool-cases (p x)) [
    | inl fits ↦
        let all : All (λ y. is_in (key x ∷ keys xs) (key y) ≡ p y) xs =
          grow (key x) (keys xs) xs (apart (key x) xs d.0) (is_in-keys xs d.1) in
        subst (λ ids. All (λ y. is_in ids (key y) ≡ p y) (x ∷ xs)) (sym (keys_of_fitting x xs fits))
          (head_in (key x) (keys xs) ∙ sym fits, all)
    | inr out ↦
        subst (λ ids. All (λ y. is_in ids (key y) ≡ p y) (x ∷ xs)) (sym (keys_of_other x xs out))
          (absent (key x) xs d.0 ∙ sym out, is_in-keys xs d.1)
  ]

  -- A test that agrees with the filter on the rows selects the same rows.
  pub select_alike :
      (q : A → Bool) (xs : List A) → All (λ x. q x ≡ p x) xs → select q xs ≡ select p xs
  unfolding select
  select_alike q [] h = refl
  select_alike q (x ∷ xs) h = rw (h.0, select_alike q xs h.1) refl
