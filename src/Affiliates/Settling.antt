-- ===== src/Affiliates/Settling.antt =====
-- What a settlement does to the commissions, whatever the payout services answer.
use otsem_api.Common.{
  ℕ, String, ◌||◌, ◌≡◌, refl, sym, ◌∙◌, subst, ◌⊎◌, inl, inr, none, some, map, arith, select,
  Bool-cases, Option-cases, str_eq, or_text,
}
use otsem_api.Numbers.{Numbers}
use otsem_api.Database.Rows.{Affiliate, Database}
use otsem_api.Database.Action.{Action, Reads-cases, ◌>>=◌, bound, stopped}
use otsem_api.Affiliates.Commissions.{affiliate_by_id, pay_affiliate, is_pending_of, paid_row}
use otsem_api.Affiliates.Settlement.{
  Payouts, Settlement, pay_pending, settle_to, settle_affiliate, settle_commission_usdt,
  amount_to_send, send_tron, send_solana, or_unsettled,
}

module _ {N : Numbers} (payouts : Payouts N) (now id : ℕ) where
  -- Nothing is written, or all pending commissions of the affiliate are paid with one id.
  abbrev pub Settles : Database → Database → Type 0
  Settles db db' =
      (db' ≡ db)
      ⊎ ((tx : String) × (db'
            ≡ (pay_affiliate N id
                (map (λ c. c.id) (select (is_pending_of id) db.affiliate_commissions))
                (paid_row now (some tx)) (select (is_pending_of id) db.affiliate_commissions)
                db).1))

  pay_pending_ends :
      (amount : N.Number) (tx : String) (db : Database)
      → (pay_pending payouts now id amount tx db).1
        ≡ (pay_affiliate N id
            (map (λ c. c.id) (select (is_pending_of id) db.affiliate_commissions))
            (paid_row now (some tx))
            (select (is_pending_of id) db.affiliate_commissions)
            db).1
  unfolding pay_pending
  pay_pending_ends amount tx db = ground arith

  sent-Settles :
      (amount : N.Number) (m : Action String) (db : Database)
      → (m db).1 ≡ db
      → Settles db ((m >>= pay_pending payouts now id amount) db).1
  sent-Settles amount m db h = elim (Reads-cases (m db) db h) [
    | inl (tx, e) ↦
        inr (tx, bound m (pay_pending payouts now id amount) e ∙ pay_pending_ends amount tx db)
    | inr (x, e) ↦ inl (stopped m (pay_pending payouts now id amount) e)
  ]

  send_tron_reads :
      (address : String) (amount : N.Number) (db : Database)
      → (send_tron payouts address amount db).1 ≡ db
  unfolding send_tron
  send_tron_reads address amount db = refl

  send_solana_reads :
      (address : String) (amount : N.Number) (db : Database)
      → (send_solana payouts address amount db).1 ≡ db
  unfolding send_solana
  send_solana_reads address amount db = ground arith

  settle_to-Settles :
      (pending : N.Number) (address network : String) (db : Database)
      → Settles db (settle_to payouts now id pending address network db).1
  unfolding settle_to
  settle_to-Settles pending address network db = elim (Bool-cases (str_eq network "TRON")) [
    | inl tron ↦ rw tron (
        sent-Settles (amount_to_send payouts pending)
          (send_tron payouts address (amount_to_send payouts pending)) db
          (send_tron_reads address (amount_to_send payouts pending) db))
    | inr other ↦ elim (Bool-cases (str_eq network "SOLANA")) [
      | inl solana ↦
          rw (other, solana)
            (sent-Settles (amount_to_send payouts pending)
              (send_solana payouts address (amount_to_send payouts pending)) db
              (send_solana_reads address (amount_to_send payouts pending) db))
      | inr none_of_them ↦ rw (other, none_of_them) (inl refl)
    ]
  ]

  or_unsettled_ends :
      (pending : N.Number) (m : Action (Settlement payouts)) (db : Database)
      → (or_unsettled payouts pending m db).1 ≡ (m db).1
  or_unsettled_ends pending m db = ground arith

  settle_affiliate-Settles :
      (a : Affiliate) (db : Database) → Settles db (settle_affiliate payouts now id a db).1
  unfolding settle_affiliate
  settle_affiliate-Settles a db =
      elim (Bool-cases (N.less (N.to_number 6 a.pending_earnings_usdt) (N.literal 1 0))) [
        | inl small ↦ rw small (inl refl)
        | inr enough ↦
            elim (Bool-cases (
              str_eq (or_text a.payout_wallet_address "") ""
              || str_eq (or_text a.payout_wallet_network "") "")) [
                | inl without ↦ rw (enough, without) (inl refl)
                | inr given ↦
                    rw (enough, given, or_unsettled_ends)
                      (settle_to-Settles (N.to_number 6 a.pending_earnings_usdt)
                        (or_text a.payout_wallet_address "") (or_text a.payout_wallet_network "")
                        db)
              ]
      ]

  settle_unknown :
      (db : Database)
      → affiliate_by_id id db ≡ none
      → (settle_commission_usdt payouts now id db).1 ≡ db
  unfolding settle_commission_usdt
  settle_unknown db e = ground arith

  settle_known :
      (db : Database) (a : Affiliate)
      → affiliate_by_id id db ≡ some a
      → (settle_commission_usdt payouts now id db).1 ≡ (settle_affiliate payouts now id a db).1
  unfolding settle_commission_usdt
  settle_known db a e = ground arith

  pub settle_commission_usdt-Settles :
      (db : Database) → Settles db (settle_commission_usdt payouts now id db).1
  settle_commission_usdt-Settles db = elim (Option-cases (affiliate_by_id id db)) [
    | inl e ↦ inl (settle_unknown db e)
    | inr (a, e) ↦ subst (Settles db) (sym (settle_known db a e)) (settle_affiliate-Settles a db)
  ]
