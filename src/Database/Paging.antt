-- ===== src/Database/Paging.antt =====
-- `findMany({ where, orderBy: { createdAt: 'desc' }, skip, take })` with `count({ where })`.
use otsem_api.Common.{
  ℕ, zero, suc, ◌+◌, ◌-◌, ◌*◌, ◌/◌, Bool, List, [], ◌∷◌, leb, length, select, if◌then◌else◌,
}

module _ {A : Type 0} where
  abbrev pub take : ℕ → List A → List A
  take zero xs = []
  take (suc n) [] = []
  take (suc n) (x ∷ xs) = x ∷ take n xs

  abbrev pub drop : ℕ → List A → List A
  drop zero xs = xs
  drop (suc n) [] = []
  drop (suc n) (x ∷ xs) = drop n xs

pub record Page (A : Type 0) : Type 0 where
  pub rows : List A
  pub total : ℕ
  pub page : ℕ
  pub limit : ℕ
  pub total_pages : ℕ

module _ {A : Type 0} (created_at : A → ℕ) where
  insert_desc : A → List A → List A
  insert_desc x [] = x ∷ []
  insert_desc x (y ∷ ys) =
      if leb (created_at y) (created_at x) then x ∷ y ∷ ys else y ∷ insert_desc x ys

  -- Rows of one time keep the order of the table.
  unfoldable pub order_desc : List A → List A
  unfolding insert_desc
  order_desc [] = []
  order_desc (x ∷ xs) = insert_desc x (order_desc xs)

  -- Pages count from 1, and a page has at least one row.
  unfoldable pub page_of : (A → Bool) → (page limit : ℕ) → List A → Page A
  page_of fits page limit table =
      let rows = select fits table in
      record {
        rows = take limit (drop ((page - 1) * limit) (order_desc rows));
        total = length rows;
        page = page;
        limit = limit;
        total_pages = (length rows + limit - 1) / limit;
      }
