-- ===== src/Wallets/Mains.antt =====
-- Counting the rows of a table that fit, and what a write or a deletion does to the count: for the
-- main wallets of src/wallet/wallet.service.ts.
use otsem_api.Common.{
  ℕ, ◌+◌, ◌≤◌, ◌≡◌, refl, Bool, true, false, not, none, some, List, [], ◌∷◌, arith, ◌==◌, find,
  select, inl, inr, Bool-cases, ==_sound,
}
use mathlib.Core.Option.{some-injective}
use otsem_api.Database.Tables.{by, update_where, HasDistinct, update_where_absent}

abbrev pub one : Bool → ℕ
one true = 1
one false = 0

module _ {A : Type 0} where
  unfoldable pub count : (A → Bool) → List A → ℕ
  count p [] = 0
  count p (x ∷ xs) = one (p x) + count p xs

  module _ (p : A → Bool) where
    pub count_cons : (x : A) (xs : List A) → count p (x ∷ xs) ≡ one (p x) + count p xs
    unfolding count
    count_cons x xs = refl

    pub count_of_none : (xs : List A) → find p xs ≡ none → count p xs ≡ 0
    unfolding find count
    count_of_none [] e = refl
    count_of_none (x ∷ xs) e = ground (arith, count_of_none xs)

    pub count_of_some : (xs : List A) {x : A} → find p xs ≡ some x → 1 ≤ count p xs
    unfolding find count
    count_of_some [] e = absurd (cc)
    count_of_some (y ∷ xs) {x} e = ground (arith, count_of_some xs {x = x})

    pub none_of_count : (xs : List A) → count p xs ≡ 0 → find p xs ≡ none
    unfolding find count
    none_of_count [] e = refl
    none_of_count (x ∷ xs) e = ground (arith, none_of_count xs)

    -- Where the rows written neither fit before nor after, the search finds what it found.
    pub find_unseen :
        (q : A → Bool) (f : A → A)
        → ((x : A) → q x ≡ true → p x ≡ false)
        → ((x : A) → q x ≡ true → p (f x) ≡ false)
        → (xs : List A) → find p (update_where q f xs) ≡ find p xs
    unfolding find update_where
    find_unseen q f before after [] = refl
    find_unseen q f before after (x ∷ xs) =
        ground (arith, before x, after x, find_unseen q f before after xs)

    pub update_where_of_none :
        (f : A → A) (xs : List A) → find p xs ≡ none → update_where p f xs ≡ xs
    unfolding find update_where
    update_where_of_none f [] e = refl
    update_where_of_none f (x ∷ xs) e = ground (arith, update_where_of_none f xs)

    -- A deletion of rows that do not fit leaves the count, any deletion leaves at most the count.
    pub count-select_le : (q : A → Bool) (xs : List A) → count p (select q xs) ≤ count p xs
    unfolding count select
    count-select_le q [] = omega arith
    count-select_le q (x ∷ xs) = ground (arith, count-select_le q xs)

    module _ (q : A → Bool) (f : A → A) (closes : (x : A) → q x ≡ true → p (f x) ≡ false) where
      pub count_closing : (xs : List A) → count p (update_where q f xs) ≤ count p xs
      unfolding count update_where
      count_closing [] = omega arith
      count_closing (x ∷ xs) = ground (arith, closes x, count_closing xs)

      pub count_closed :
          ((x : A) → p x ≡ true → q x ≡ true) → (xs : List A) → count p (update_where q f xs) ≡ 0
      unfolding count update_where
      count_closed covers [] = refl
      count_closed covers (x ∷ xs) = ground (arith, closes x, covers x, count_closed covers xs)

    -- Where a write changes whether no row fits, the count stays.
    pub count_same :
        (q : A → Bool) (f : A → A)
        → ((x : A) → q x ≡ true → p (f x) ≡ p x)
        → (xs : List A) → count p (update_where q f xs) ≡ count p xs
    unfolding count update_where
    count_same q f same [] = refl
    count_same q f same (x ∷ xs) = ground (arith, same x, count_same q f same xs)

  module _ (key : A → ℕ) (p : A → Bool) (f : A → A) where
    -- One row is written: the count moves as that row does.
    pub count-update_where :
        (k : ℕ) (xs : List A) {x : A}
        → HasDistinct key xs
        → find (by key k) xs ≡ some x
        → count p (update_where (by key k) f xs) + one (p x) ≡ count p xs + one (p (f x))
    unfolding find update_where count
    count-update_where k [] d e = absurd (cc)
    count-update_where k (y ∷ xs) {x} d e = elim (Bool-cases (key y == k)) [
      | inl same ↦
          let gone = update_where_absent key f k xs (rw (← ==_sound (key y) k same) d.0) in
          rw (same, gone) (grind (arith, some-injective (rw same at e)))
      | inr other ↦ rw other (grind (arith, count-update_where k xs {x = x} d.1))
    ]

    -- The row written is the first that fits, where none fitted before.
    pub find_written :
        (k : ℕ) (xs : List A) {x : A}
        → find p xs ≡ none
        → find (by key k) xs ≡ some x
        → p (f x) ≡ true
        → find p (update_where (by key k) f xs) ≡ some (f x)
    unfolding find update_where
    find_written k [] e h t = absurd (cc)
    find_written k (y ∷ xs) {x} e h t = ground (arith, find_written k xs {x = x})

    -- A row that fits neither before nor after is written unseen.
    pub find_written_unseen :
        (k : ℕ) (xs : List A) {x : A}
        → HasDistinct key xs
        → find (by key k) xs ≡ some x
        → p x ≡ false
        → p (f x) ≡ false
        → find p (update_where (by key k) f xs) ≡ find p xs
    unfolding find update_where
    find_written_unseen k [] d e b a = refl
    find_written_unseen k (y ∷ xs) {x} d e b a = elim (Bool-cases (key y == k)) [
      | inl same ↦
          let gone = update_where_absent key f k xs (rw (← ==_sound (key y) k same) d.0) in
          rw (same, gone) (grind (arith, some-injective (rw same at e), b, a))
      | inr other ↦
          rw other (ground (arith, find_written_unseen k xs {x = x} d.1 (rw other at e) b a))
    ]

  module _ (key : A → ℕ) (q : A → Bool) where
    find-by-select_of_none :
        (k : ℕ) (xs : List A) → find (by key k) xs ≡ none → find (by key k) (select q xs) ≡ none
    unfolding find select
    find-by-select_of_none k [] e = refl
    find-by-select_of_none k (x ∷ xs) e = ground (arith, find-by-select_of_none k xs)

    pub select-HasDistinct : (xs : List A) → HasDistinct key xs → HasDistinct key (select q xs)
    unfolding select
    select-HasDistinct [] d = tt
    select-HasDistinct (x ∷ xs) d =
        ground (arith, select-HasDistinct xs d.1, find-by-select_of_none (key x) xs)

  pub select_absent :
      (key : A → ℕ) (k : ℕ) (xs : List A)
      → find (by key k) xs ≡ none
      → select (λ x. not (key x == k)) xs ≡ xs
  unfolding find select
  select_absent key k [] e = refl
  select_absent key k (x ∷ xs) e = ground (arith, select_absent key k xs)

  -- Deleting the row of a key takes only that row's share of the count.
  pub count_deleted :
      (key : A → ℕ) (p : A → Bool) (k : ℕ) (xs : List A) {x : A}
      → find (by key k) xs ≡ some x
      → HasDistinct key xs
      → count p (select (λ x. not (key x == k)) xs) + one (p x) ≡ count p xs
  unfolding find select count
  count_deleted key p k [] e d = absurd (cc)
  count_deleted key p k (y ∷ xs) {x} e d = elim (Bool-cases (key y == k)) [
    | inl same ↦ rw same (
        grind (
          arith,
          some-injective (rw same at e),
          select_absent key k xs (rw (← ==_sound (key y) k same) d.0),
        ))
    | inr other ↦ rw other (grind (arith, count_deleted key p k xs {x = x} (rw other at e) d.1))
  ]
