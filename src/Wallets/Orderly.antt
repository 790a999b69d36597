-- ===== src/Wallets/Orderly.antt =====
-- Orderly wallets (src/wallet/wallet.service.ts): ids are unique, a customer has at most one main
-- wallet on a network, and every currency is one its network takes. What adding, resetting and
-- writing rows does to that.
use otsem_api.Common.{
  ℕ, ◌≤◌, ◌≡◌, refl, Bool, true, false, some, List, [], ◌∷◌, arith, ==_sound, ==_refl, find, any,
  select, All, ◌⊎◌, inl, inr, Bool-cases,
}
use otsem_api.Database.Enums.{WalletNetwork, network_is_sound, network_is_refl}
use otsem_api.Database.Rows.{Wallet, Database}
use otsem_api.Database.Tables.{
  by, update_where, HasDistinct, update_where_any-HasDistinct, update_where-HasDistinct,
  find-by_of_any,
}
use otsem_api.Wallets.Currencies.{is_supported}
use otsem_api.Wallets.Management.{is_main_of, unset_mains, not_main, wallet_clash}
use otsem_api.Wallets.Mains.{count, count_cons, count_closing, count_closed, count-update_where}

abbrev pub takes_currency : Wallet → Bool
takes_currency w = is_supported w.network w.currency

abbrev pub IsOrderlyTable : List Wallet → Type 0
IsOrderlyTable ws =
    HasDistinct (λ w. w.id) ws
    × ((c : ℕ) (n : WalletNetwork) → count (is_main_of c n) ws ≤ 1)
    × All (λ w. takes_currency w ≡ true) ws

abbrev pub IsOrderly : Database → Type 0
IsOrderly db = IsOrderlyTable db.wallets

All-update_where :
    (q : Wallet → Bool) (f : Wallet → Wallet)
    → ((w : Wallet) → takes_currency (f w) ≡ takes_currency w)
    → (ws : List Wallet) → All (λ w. takes_currency w ≡ true) ws
    → All (λ w. takes_currency w ≡ true) (update_where q f ws)
unfolding update_where
All-update_where q f keep [] h = tt
All-update_where q f keep (w ∷ ws) h = ground (arith, keep w, All-update_where q f keep ws h.1)

pub All-select :
    (q : Wallet → Bool) (ws : List Wallet)
    → All (λ w. takes_currency w ≡ true) ws
    → All (λ w. takes_currency w ≡ true) (select q ws)
unfolding select
All-select q [] h = tt
All-select q (w ∷ ws) h = ground (arith, All-select q ws h.1)

-- The key of a main wallet is known from the test.
pub is_main_of_sound :
    (c : ℕ) (n : WalletNetwork) (w : Wallet)
    → is_main_of c n w ≡ true
    → (w.customer_id ≡ c) × (w.network ≡ n) × (w.is_main ≡ true)
unfolding is_main_of
is_main_of_sound c n w h = ground (arith, ==_sound w.customer_id c, network_is_sound w.network n)

is_main_of_main : (w : Wallet) → w.is_main ≡ true → is_main_of w.customer_id w.network w ≡ true
unfolding is_main_of
is_main_of_main w h = rw (h, ==_refl w.customer_id, network_is_refl w.network) refl

not_main_closes : (c d : ℕ) (n m : WalletNetwork) (w : Wallet) → is_main_of c n (not_main w) ≡ false
unfolding is_main_of
not_main_closes c d n m w = ground arith

pub unset-count :
    (c : ℕ) (n : WalletNetwork) (db : Database)
    → count (is_main_of c n) (unset_mains c n db).wallets ≡ 0
unfolding unset_mains
unset-count c n db =
    count_closed (is_main_of c n) (is_main_of c n) not_main (λ w h. not_main_closes c c n n w)
      (λ w h. h) db.wallets

pub unset-IsOrderly :
    (c : ℕ) (n : WalletNetwork) (db : Database) → IsOrderly db → IsOrderly (unset_mains c n db)
unfolding unset_mains
unset-IsOrderly c n db (distinct, single, supported) = (
  update_where_any-HasDistinct (λ w. w.id) (is_main_of c n) not_main (λ w. refl) db.wallets
      distinct,
  λ d m.
      let fewer =
        count_closing (is_main_of d m) (is_main_of c n) not_main (λ w h. not_main_closes d c m n w)
          db.wallets in
      omega (arith, fewer, single d m),
  All-update_where (is_main_of c n) not_main (λ w. refl) db.wallets supported,
)

pub covers : (w v : Wallet) → v.id ≡ w.id → wallet_clash w v ≡ true
unfolding wallet_clash
covers w v e = rw (e, ==_refl w.id) refl

abbrev pub with_wallet : Wallet → Database → Database
with_wallet w db = record db { wallets = w ∷ db.wallets }

pub added-IsOrderly :
    (w : Wallet) (db : Database)
    → IsOrderly db
    → any (wallet_clash w) db.wallets ≡ false
    → takes_currency w ≡ true
    → (w.is_main ≡ true → count (is_main_of w.customer_id w.network) db.wallets ≡ 0)
    → IsOrderly (with_wallet w db)
added-IsOrderly w db (distinct, single, supported) new takes first = (
  (find-by_of_any (λ w. w.id) wallet_clash w (covers w) db.wallets new, distinct),
  λ d m. elim (Bool-cases (is_main_of d m w)) [
    | inl yes_main ↦
        let (c, n, main) = is_main_of_sound d m w yes_main in
        let empty : count (is_main_of d m) db.wallets ≡ 0 = rw (← c, ← n) (first main) in
        rw (count_cons (is_main_of d m) w db.wallets, yes_main, empty) (omega arith)
    | inr other ↦ rw (count_cons (is_main_of d m) w db.wallets, other) (omega (arith, single d m))
  ],
  (takes, supported),
)

-- One wallet is written by a function that keeps its customer, network, currency and id.
abbrev pub Keeps : (Wallet → Wallet) → Type 0
Keeps f =
    (w : Wallet)
    → ((f w).id ≡ w.id)
      × ((f w).customer_id ≡ w.customer_id)
      × ((f w).network ≡ w.network)
      × ((f w).currency ≡ w.currency)

pub written-IsOrderly :
    (id : ℕ) (f : Wallet → Wallet) (keeps : Keeps f) (ws : List Wallet) (w : Wallet)
    → IsOrderlyTable ws
    → find (by (λ w. w.id) id) ws ≡ some w
    → ((f w).is_main ≡ true
        → (w.is_main ≡ true) ⊎ (count (is_main_of w.customer_id w.network) ws ≡ 0))
    → IsOrderlyTable (update_where (by (λ w. w.id) id) f ws)
written-IsOrderly id f keeps ws w (distinct, single, supported) found alone = (
  update_where-HasDistinct (λ w. w.id) f (λ w. (keeps w).0) id ws distinct,
  λ d m.
      let moved = count-update_where (λ w. w.id) (is_main_of d m) f id ws distinct found in
      elim (Bool-cases (is_main_of d m (f w))) [
        | inl yes_main ↦
            let (c, n, main) = is_main_of_sound d m (f w) yes_main in
            let (_, kept_c, kept_n, _) = keeps w in
            elim (alone main) [
              | inl before ↦
                  let was : is_main_of d m w ≡ true =
                    rw (← c, ← n, kept_c, kept_n) (is_main_of_main w before) in
                  grind (arith, moved, was, yes_main, single d m)
              | inr empty ↦
                  let gone : count (is_main_of d m) ws ≡ 0 = rw (← c, ← n, kept_c, kept_n) empty in
                  grind (arith, moved, gone, yes_main)
            ]
        | inr other ↦ grind (arith, moved, other, single d m)
      ],
  All-update_where (by (λ w. w.id) id) f
      (λ w. let (_, _, same_n, same_c) = keeps w in rw (same_n, same_c) refl) ws supported,
)
