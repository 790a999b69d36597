-- ===== src/Affiliates/Sums.antt =====
-- How rewriting the chosen rows of a table moves the total of the rows that fit.
use otsem_api.Common.{
  ℤ, ◌≡◌, refl, ap, Bool, true, false, ◌&&◌, List, [], ◌∷◌, arith, ◌+ℤ◌, int_laws, pos_part,
  neg_part, select, All, Bool-cases, inl, inr,
}
use otsem_api.Database.Tables.{update_where, sum_of}

module _ {A : Type 0} where
  -- `aggregate({ where, _sum })`
  unfoldable pub sum_where : (A → Bool) → (A → ℤ) → List A → ℤ
  sum_where p m xs = sum_of m (select p xs)

  pub select_and :
      (q p : A → Bool) (xs : List A)
      → All (λ x. q x ≡ true → p x ≡ true) xs
      → select (λ x. q x && p x) xs ≡ select q xs
  unfolding select
  select_and q p [] h = refl
  select_and q p (x ∷ xs) h = ground (arith, select_and q p xs h.1)

leave_head : (x q s s' : ℤ) → s' +ℤ q ≡ s → s' +ℤ (x +ℤ q) ≡ x +ℤ s
leave_head x q s s' e = let p = ap pos_part e in let n = ap neg_part e in omega int_laws

leave_tail : (x q s s' : ℤ) → s' +ℤ q ≡ s → x +ℤ s' +ℤ q ≡ x +ℤ s
leave_tail x q s s' e = let p = ap pos_part e in let n = ap neg_part e in omega int_laws

enter_head : (x q s s' : ℤ) → s' ≡ s +ℤ q → x +ℤ s' ≡ s +ℤ (x +ℤ q)
enter_head x q s s' e = let p = ap pos_part e in let n = ap neg_part e in omega int_laws

enter_tail : (x q s s' : ℤ) → s' ≡ s +ℤ q → x +ℤ s' ≡ x +ℤ s +ℤ q
enter_tail x q s s' e = let p = ap pos_part e in let n = ap neg_part e in omega int_laws

module _ {A : Type 0} (q p : A → Bool) (f : A → A) (m : A → ℤ)
    (same : (x : A) → m (f x) ≡ m x) where
  -- Rows that fit no more leave with what they hold.
  pub sum_where-leaving :
      (xs : List A)
      → All (λ x. q x ≡ true → (p x ≡ true) × (p (f x) ≡ false)) xs
      → sum_where p m (update_where q f xs) +ℤ sum_where q m xs ≡ sum_where p m xs
  unfolding sum_where select update_where sum_of
  sum_where-leaving [] h = omega int_laws
  sum_where-leaving (x ∷ xs) h =
      let rest = sum_where-leaving xs h.1 in
      elim (Bool-cases (q x)) [
        | inl chosen ↦ rw (chosen, (h.0 chosen).0, (h.0 chosen).1) (leave_head _ _ _ _ rest)
        | inr other ↦ elim (Bool-cases (p x)) [
          | inl fits ↦ rw (other, fits) (leave_tail _ _ _ _ rest)
          | inr out ↦ rw (other, out) rest
        ]
      ]

  -- Rows that fit from now on bring what they hold.
  pub sum_where-entering :
      (xs : List A)
      → All (λ x. q x ≡ true → (p x ≡ false) × (p (f x) ≡ true)) xs
      → sum_where p m (update_where q f xs) ≡ sum_where p m xs +ℤ sum_where q m xs
  unfolding sum_where select update_where sum_of
  sum_where-entering [] h = omega int_laws
  sum_where-entering (x ∷ xs) h =
      let rest = sum_where-entering xs h.1 in
      elim (Bool-cases (q x)) [
        | inl chosen ↦ rw (chosen, (h.0 chosen).0, (h.0 chosen).1, same x) (enter_head _ _ _ _ rest)
        | inr other ↦ elim (Bool-cases (p x)) [
          | inl fits ↦ rw (other, fits) (enter_tail _ _ _ _ rest)
          | inr out ↦ rw (other, out) rest
        ]
      ]

  pub sum_where-untouched :
      (xs : List A)
      → All (λ x. q x ≡ true → (p x ≡ false) × (p (f x) ≡ false)) xs
      → sum_where p m (update_where q f xs) ≡ sum_where p m xs
  unfolding sum_where select update_where sum_of
  sum_where-untouched [] h = refl
  sum_where-untouched (x ∷ xs) h = ground (arith, sum_where-untouched xs h.1)
