-- ===== src/Conversions/Deposits.antt =====
-- Which deposit at the exchange belongs to a sale: `checkDepositConfirmation` and
-- `detectOrphanDeposits` of src/wallet/sell-processing.service.ts. Times count milliseconds.
use otsem_api.Common.{
  ℕ, ◌+◌, ◌*◌, String, Bool, false, not, ◌&&◌, Option, none, some, List, [], ◌∷◌, leb, any, select,
  str_eq, text_is, if◌then◌else◌,
}
use otsem_api.Numbers.{Numbers}
use otsem_api.Database.Enums.{ConversionStatus}
use otsem_api.Database.Rows.{Conversion, Database}
use otsem_api.Database.Action.{Action, Result, Error, ok, err, failure, pure, ◌>>=◌, ◌>>◌}
use otsem_api.Conversions.Rows.{update_conversion}

abbrev pub no_amount : Error
no_amount = failure "Cannot read properties of null (reading 'toString')"

module _ (N : Numbers) where
  open N use {Number, literal, minus, less, to_number, to_column}

  -- A deposit as `getRecentDeposits` lists it; `amount` is the text `amt` read as a number.
  pub record Deposit : Type 0 where
    pub dep_id : String
    pub tx_id : String
    pub chain : String
    pub state : String
    pub amount : Number
    pub ts : ℕ

  -- `conversion.txHash && dep.txId === conversion.txHash`
  abbrev pub has_hash : Option String → String → Bool
  has_hash none tx_id = false
  has_hash (some h) tx_id = not (str_eq h "") && str_eq tx_id h

  abbrev pub chain_of : String → String
  chain_of network = if str_eq network "SOLANA" then "USDT-Solana" else "USDT-TRC20"

  -- `Math.abs(a - b) < 0.01`
  abbrev pub is_close : Number → Number → Bool
  is_close a b = less (minus a b) (literal 1 2) && less (minus b a) (literal 1 2)

  -- From five minutes before to an hour after.
  abbrev pub in_window : (conversion deposit : ℕ) → Bool
  in_window conversion deposit =
      leb conversion (deposit + 5 * 60_000) && leb deposit (conversion + 60 * 60_000)

  -- `deposits.find(…)`: the amount is read once a deposit of the chain has arrived, and reading it
  -- throws where there is none.
  unfoldable pub matching_deposit : Conversion → List Deposit → Result (Option Deposit)
  matching_deposit c [] = ok none
  matching_deposit c (d ∷ ds) =
      let rest = matching_deposit c ds in
      if has_hash c.tx_hash d.tx_id
      then ok (some d)
      else if str_eq d.chain (chain_of c.network) && str_eq d.state "2"
      then elim c.usdt_purchased [
        | none ↦ err no_amount
        | some u ↦
            if is_close (to_number 6 u) d.amount && in_window c.created_at d.ts
            then ok (some d)
            else rest
      ]
      else rest

  abbrev pub received : Deposit → Conversion → Conversion
  received d c = record c {
    status = ConversionStatus.usdt_received;
    okx_deposit_id = some d.dep_id;
    tx_hash = some d.tx_id;
    usdt_purchased = some (to_column 6 d.amount);
  }

  abbrev pub confirm_deposit : ℕ → Option Deposit → Action (Unit {0})
  confirm_deposit id none = pure tt
  confirm_deposit id (some d) = do update_conversion id (received d); pure tt

  unfoldable pub check_deposit_confirmation : Conversion → List Deposit → Action (Unit {0})
  check_deposit_confirmation c deposits = do
    found ← λ db. (matching_deposit c deposits, db)
    confirm_deposit c.id found

  -- The deposits that have arrived within a day and that no conversion names; they are only logged.
  unfoldable pub orphan_deposits : (now : ℕ) → List Deposit → Database → List Deposit
  orphan_deposits now deposits db =
      select
        (λ d.
          str_eq d.state "2"
          && not (any (λ c. text_is c.okx_deposit_id d.dep_id) db.conversions)
          && leb now (d.ts + 24 * 60 * 60_000))
        deposits
