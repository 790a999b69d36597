-- ===== src/Wallets/Choosing.antt =====
-- What `setMainWallet` promises, and what `createWallet` loses when it throws after the reset.
use otsem_api.Common.{
  ℕ, ◌≡◌, refl, sym, ap, ◌∙◌, String, Bool, true, false, ◌&&◌, inl, inr, Option, none, some, List,
  [], ◌∷◌, arith, ◌==◌, ==_refl, find, any, subst, eq_iff, text_is,
}
use otsem_api.Database.Enums.{WalletNetwork, network_is, network_is_refl}
use otsem_api.Database.Rows.{Wallet, Database}
use otsem_api.Database.Tables.{update_where, find-by_sound}
use otsem_api.Database.Queries.{text_clash}
use otsem_api.Database.Action.{ok, err, ok-injective}
use otsem_api.Boleto.Payments.{wallet_by_id}
use otsem_api.Wallets.Currencies.{normalize_currency, is_supported, assert_supported_currency}
use otsem_api.Wallets.Management.{
  is_main_of, is_same_wallet, belongs_to, unset_mains, not_main, as_main, wallet_clash,
  create_wallet, insert_wallet, get_main_wallet, taken, wallet_row,
}
use otsem_api.Wallets.Keeping.{update_wallet, set_main_wallet}
use otsem_api.Wallets.Mains.{find_unseen, find_written, find_written_unseen, none_of_count}
use otsem_api.Wallets.Orderly.{IsOrderly, is_main_of_sound, unset-count, unset-IsOrderly}
use otsem_api.Wallets.Effects.{update_wallet_found, set_main_wallet-cases}
use otsem_api.Wallets.Steps.{reset_row, found_reset, reset_row_keys}

-- Nobody is main once the main wallets are reset.
get_main_wallet_reset :
    (c : ℕ) (n : WalletNetwork) (db : Database) → get_main_wallet c n (unset_mains c n db) ≡ none
unfolding get_main_wallet
get_main_wallet_reset c n db =
    none_of_count (is_main_of c n) (unset_mains c n db).wallets (unset-count c n db)

not_of_other :
    (c e : ℕ) (n m : WalletNetwork) (w : Wallet)
    → (c == e && network_is n m) ≡ false
    → w.customer_id ≡ c
    → w.network ≡ n
    → is_main_of e m w ≡ false
unfolding is_main_of
not_of_other c e n m w other same_c same_n = rw (same_c, same_n, other) refl

module _ (c e : ℕ) (n m : WalletNetwork) (db : Database)
    (other : (c == e && network_is n m) ≡ false) where
  get_main_wallet_unset : get_main_wallet e m (unset_mains c n db) ≡ get_main_wallet e m db
  unfolding get_main_wallet unset_mains
  get_main_wallet_unset =
      find_unseen (is_main_of e m) (is_main_of c n) not_main
        (λ w main. let (i, j, _) = is_main_of_sound c n w main in not_of_other c e n m w other i j)
        (λ w main.
          let (i, j, _) = is_main_of_sound c n w main in
          not_of_other c e n m (not_main w) other i j)
        db.wallets

module _ (id c : ℕ) (db : Database) (w : Wallet) (found : wallet_by_id id db ≡ some w)
    (own : w.customer_id ≡ c) where
  chosen : Wallet
  chosen = as_main (reset_row c w)

  chosen_main : is_main_of c w.network chosen ≡ true
  unfolding chosen is_main_of
  chosen_main =
      let (_, same_c, same_n) = reset_row_keys c w in
      rw (same_c, same_n, own, ==_refl c, network_is_refl w.network) refl

  get_main_wallet_of_chosen :
      get_main_wallet c w.network (update_wallet id as_main (unset_mains c w.network db)).1
      ≡ some chosen
  unfolding get_main_wallet wallet_by_id chosen
  get_main_wallet_of_chosen =
      rw (update_wallet_found id as_main (unset_mains c w.network db) (found_reset id c db w found))
        (find_written (λ w. w.id) (is_main_of c w.network) as_main id
          (unset_mains c w.network db).wallets (get_main_wallet_reset c w.network db)
          (found_reset id c db w found) chosen_main)

  get_main_wallet_others :
      (e : ℕ) (m : WalletNetwork)
      → IsOrderly db
      → (c == e && network_is w.network m) ≡ false
      → get_main_wallet e m (update_wallet id as_main (unset_mains c w.network db)).1
        ≡ get_main_wallet e m db
  unfolding get_main_wallet wallet_by_id
  get_main_wallet_others e m h other =
      let (_, same_c, same_n) = reset_row_keys c w in
      let (distinct, _, _) = unset-IsOrderly c w.network db h in
      rw (update_wallet_found id as_main (unset_mains c w.network db) (found_reset id c db w found))
        (find_written_unseen (λ w. w.id) (is_main_of e m) as_main id
            (unset_mains c w.network db).wallets distinct (found_reset id c db w found)
            (not_of_other c e w.network m (reset_row c w) other (same_c ∙ own) same_n)
            (not_of_other c e w.network m (as_main (reset_row c w)) other (same_c ∙ own) same_n)
          ∙ get_main_wallet_unset c e w.network m db other)

-- When `setMainWallet` answers, the wallet it answers with has the id that was asked for, belongs to
-- the customer and is from then on its main wallet on that network, and the main wallets of every
-- other customer and network are those from before; where wallet ids are unique, no customer has two
-- main wallets on a network and every currency is one that its network takes.
pub set_main_wallet-get_main_wallet :
    (id c : ℕ) (db : Database) (w : Wallet) (d : Database)
    → IsOrderly db
    → set_main_wallet id c db ≡ (ok w, d)
    → (w.id ≡ id)
      × (w.customer_id ≡ c)
      × (get_main_wallet c w.network d ≡ some w)
      × ((e : ℕ) (m : WalletNetwork)
          → (c == e && network_is w.network m) ≡ false
          → get_main_wallet e m d ≡ get_main_wallet e m db)
unfolding wallet_by_id chosen
set_main_wallet-get_main_wallet id c db w d h is = elim (set_main_wallet-cases id c db) [
  | inl (e, threw) ↦ absurd (cc)
  | inr (v, found, own, went) ↦
      let (same_id, same_c, same_n) = reset_row_keys c v in
      let u =
        update_wallet_found id as_main (unset_mains c v.network db) (found_reset id c db v found) in
      let both = sym is ∙ went in
      let row : w ≡ as_main (reset_row c v) = ok-injective (ap (λ x. x.0) (both ∙ u)) in
      let end : d ≡ (update_wallet id as_main (unset_mains c v.network db)).1 =
        ap (λ x. x.1) both in
      let net : w.network ≡ v.network = ap (λ x. x.network) row ∙ same_n in
      (
        ap (λ x. x.id) row ∙ same_id ∙ find-by_sound (λ w. w.id) id db.wallets found,
        ap (λ x. x.customer_id) row ∙ same_c ∙ own,
        rw end (
            subst
              (λ m.
                get_main_wallet c m (update_wallet id as_main (unset_mains c v.network db)).1
                ≡ some w)
              (sym net) (get_main_wallet_of_chosen id c db v found own ∙ ap some (sym row))),
        λ e m other. rw end (get_main_wallet_others id c db v found own e m h (rw (← net) other)),
      )
]

any_of_find :
    (p q : Wallet → Bool) (r : Wallet → Bool) (f : Wallet → Wallet)
    → ((w : Wallet) → p w ≡ true → q w ≡ true)
    → ((w : Wallet) → q (f w) ≡ q w)
    → (ws : List Wallet) {w : Wallet} → find p ws ≡ some w
    → any q (update_where r f ws) ≡ true
unfolding find any update_where
any_of_find p q r f fits keep [] e = absurd (cc)
any_of_find p q r f fits keep (v ∷ ws) {w} e =
    ground (arith, fits v, keep v, any_of_find p q r f fits keep ws {w = w})

text_clash_of_is :
    (o : Option String) (s : String) → text_is o s ≡ true → text_clash o (some s) ≡ true
text_clash_of_is none s h = absurd (cc)
text_clash_of_is (some t) s h = (eq_iff s t).1 (sym ((eq_iff t s).0 h))

held_clashes :
    (row w : Wallet) (address : String)
    → row.external_address ≡ some address
    → (belongs_to row.customer_id row.network w && text_is w.external_address address) ≡ true
    → wallet_clash row w ≡ true
unfolding wallet_clash
held_clashes row w address e h = ground (arith, text_clash_of_is w.external_address address)

clashes_reset :
    (row v : Wallet) (address : String) (db : Database)
    → row.external_address ≡ some address
    → find
        (λ w. belongs_to row.customer_id row.network w && text_is w.external_address address)
        db.wallets
      ≡ some v
    → any (wallet_clash row) (unset_mains row.customer_id row.network db).wallets ≡ true
unfolding unset_mains wallet_clash
clashes_reset row v address db e held =
    any_of_find
      (λ w. belongs_to row.customer_id row.network w && text_is w.external_address address)
      (wallet_clash row) (is_main_of row.customer_id row.network) not_main
      (λ w. held_clashes row w address e) (λ w. refl) db.wallets held

-- A creation as main wallet, of an address that the customer holds on that network under another
-- currency, is refused as taken, and afterwards the customer has no main wallet on that network;
-- where the network takes the currency.
pub create_wallet-get_main_wallet :
    (id now c : ℕ) (n : WalletNetwork) (address : String) (currency label : Option String)
    (db : Database) (v : Wallet)
    → is_supported n (normalize_currency currency n) ≡ true
    → find (is_same_wallet c n address (normalize_currency currency n)) db.wallets ≡ none
    → find (λ w. belongs_to c n w && text_is w.external_address address) db.wallets ≡ some v
    → ((create_wallet id now c n address currency label true db).0 ≡ err taken)
      × (get_main_wallet c n (create_wallet id now c n address currency label true db).1 ≡ none)
unfolding create_wallet assert_supported_currency insert_wallet
create_wallet-get_main_wallet id now c n address currency label db v takes new held =
    let row = wallet_row id now c n address none (normalize_currency currency n) label true in
    let clashes = clashes_reset row v address db refl held in
    ground (arith, takes, new, clashes, get_main_wallet_reset c n db)
