-- ===== src/Database/Tables.antt =====
-- A table is a list of rows. `find` reads by a unique column, `update_where` writes, and these
-- are the laws of both over a column that identifies a row.
use otsem_api.Common.{
  ℕ, ◌≡◌, refl, Bool, true, false, none, some, List, [], ◌∷◌, arith, ◌==◌, if◌then◌else◌, ℤ, pos,
  ◌+ℤ◌, int_laws, find, any, inl, inr, Bool-cases, ==_sound,
}
use mathlib.Core.Option
use mathlib.Core.Option.{some-injective}

module _ {A : Type 0} where
  -- `update` and `updateMany`: the rows that fit are written.
  unfoldable pub update_where : (A → Bool) → (A → A) → List A → List A
  update_where p f [] = []
  update_where p f (x ∷ xs) = (if p x then f x else x) ∷ update_where p f xs

  -- `aggregate({ _sum })`, and the total of a column.
  unfoldable pub sum_of : (A → ℤ) → List A → ℤ
  sum_of m [] = pos 0
  sum_of m (x ∷ xs) = m x +ℤ sum_of m xs

  pub find_sound : (p : A → Bool) (xs : List A) {x : A} → find p xs ≡ some x → p x ≡ true
  unfolding find
  find_sound p [] e = absurd (cc)
  find_sound p (y ∷ xs) {x} e = ground (arith, find_sound p xs {x = x})

module _ {A : Type 0} (key : A → ℕ) where
  abbrev pub by : ℕ → A → Bool
  by k x = key x == k

  -- No two rows have one key.
  abbrev pub HasDistinct : List A → Type 0
  HasDistinct [] = Unit
  HasDistinct (x ∷ xs) = (find (by (key x)) xs ≡ none) × HasDistinct xs

  pub find-by_sound : (k : ℕ) (xs : List A) {x : A} → find (by k) xs ≡ some x → key x ≡ k
  find-by_sound k xs {x} e = ==_sound (key x) k (find_sound (by k) xs e)

  -- Whatever column a row was found by, its key finds it too.
  pub find-by_of_find :
      (p : A → Bool) (xs : List A) {x : A}
      → HasDistinct xs
      → find p xs ≡ some x
      → find (by (key x)) xs ≡ some x
  unfolding find
  find-by_of_find p [] d e = absurd (cc)
  find-by_of_find p (y ∷ xs) {x} d e = ground (arith, find-by_of_find p xs {x = x} d.1)

  module _ (f : A → A) (keep : (x : A) → key (f x) ≡ key x) where
    pub find-update_where :
        (k j : ℕ) (xs : List A)
        → find (by j) (update_where (by k) f xs)
          ≡ (if k == j then Option.map f (find (by j) xs) else find (by j) xs)
    unfolding find update_where
    find-update_where k j [] = ground arith
    find-update_where k j (x ∷ xs) = ground (arith, find-update_where k j xs, keep x)

    pub update_where-HasDistinct :
        (k : ℕ) (xs : List A) → HasDistinct xs → HasDistinct (update_where (by k) f xs)
    unfolding update_where
    update_where-HasDistinct k [] d = tt
    update_where-HasDistinct k (x ∷ xs) d =
        ground (arith, update_where-HasDistinct k xs d.1, keep x, find-update_where k (key x) xs)

  -- The same where the rows are chosen by another column.
  module _ (p : A → Bool) (f : A → A) (keep : (x : A) → key (f x) ≡ key x) where
    pub find-update_where_any :
        (j : ℕ) (xs : List A)
        → find (by j) (update_where p f xs)
          ≡ Option.map (λ x. if p x then f x else x) (find (by j) xs)
    unfolding find update_where
    find-update_where_any j [] = ground arith
    find-update_where_any j (x ∷ xs) = ground (arith, find-update_where_any j xs, keep x)

    pub update_where_any-HasDistinct :
        (xs : List A) → HasDistinct xs → HasDistinct (update_where p f xs)
    unfolding update_where
    update_where_any-HasDistinct [] d = tt
    update_where_any-HasDistinct (x ∷ xs) d =
        ground
          (arith, update_where_any-HasDistinct xs d.1, keep x, find-update_where_any (key x) xs)

  -- A row that clashes with no other, where a clash covers equal keys, has a new key.
  pub find-by_of_any :
      (clash : A → A → Bool) (x : A)
      → ((y : A) → key y ≡ key x → clash x y ≡ true)
      → (xs : List A) → any (clash x) xs ≡ false
      → find (by (key x)) xs ≡ none
  unfolding find any
  find-by_of_any clash x covers [] h = refl
  find-by_of_any clash x covers (y ∷ xs) h =
      ground (arith, covers y, find-by_of_any clash x covers xs)

  pub update_where_absent :
      (f : A → A) (k : ℕ) (xs : List A) → find (by k) xs ≡ none → update_where (by k) f xs ≡ xs
  unfolding find update_where
  update_where_absent f k [] e = refl
  update_where_absent f k (x ∷ xs) e = ground (arith, update_where_absent f k xs)

  -- Writing one row moves the total of a column by what it moves in that row.
  pub sum_of-update_where :
      (m : A → ℤ) (f : A → A) (k : ℕ) (xs : List A) {x : A}
      → HasDistinct xs
      → find (by k) xs ≡ some x
      → sum_of m (update_where (by k) f xs) +ℤ m x ≡ sum_of m xs +ℤ m (f x)
  unfolding find update_where sum_of
  sum_of-update_where m f k [] d e = absurd (cc)
  sum_of-update_where m f k (y ∷ xs) {x} d e = elim (Bool-cases (key y == k)) [
    | inl same ↦
        let gone = update_where_absent f k xs (rw (← ==_sound (key y) k same) d.0) in
        rw (same, gone) (grind (int_laws, some-injective (rw same at e)))
    | inr other ↦ rw other (grind (int_laws, sum_of-update_where m f k xs {x = x} d.1))
  ]
