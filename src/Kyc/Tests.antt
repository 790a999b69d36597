-- ===== src/Kyc/Tests.antt =====
-- Runs of the KYC services, and the theorems at those runs.
use otsem_api.Common.{
  pos, ◌≡◌, refl, none, some, [], true, false, ◌≤◌, ◌*◌, find, any, select, length, trim, str_eq,
  ◌||◌, inl,
}
use otsem_api.Samples.{scale, scaled, bank, customer}
use otsem_api.Database.Enums.{
  KycLevel, CustomerType, KycUpgradeRequestStatus, request_status_is, level_is, customer_type_is,
}
use otsem_api.Database.Rows.{Database}
use otsem_api.Database.Tables.{update_where}
use otsem_api.Database.Queries.{customer_by_id}
use otsem_api.Database.Action.{ok, err}
use otsem_api.Ledger.Deposits.{process_pix_deposit, process_pix_withdraw}
use otsem_api.Kyc.Upgrades.{
  create_request, insert_request, approve_request, reject_request, grant_level, update_request,
  set_level, request_by_id, level_order, draft_request, reviewed_error,
}
use otsem_api.Kyc.Orderly.{pending, IsOrderly, level_at}
use otsem_api.Kyc.Levels.{Step, Reach, Reach-one_pending, Reach-levels_rise, approve_request_once}
use otsem_api.Kyc.Limits.{
  Month, config_by, get_monthly_limit, seed_kyc_level_configs, validate_transaction_limit,
}
use otsem_api.Kyc.Quota.{seed-get_monthly_limit}
use otsem_api.Kyc.Usage.{validate_unconfigured, validate-process_pix_withdraw}

kyc : Unit {0}
unfolding create_request insert_request approve_request reject_request grant_level update_request
    set_level request_by_id level_order customer_by_id request_status_is level_is customer_type_is
    find any select update_where trim config_by
kyc = tt

bank-IsOrderly : IsOrderly bank
unfolding kyc
bank-IsOrderly k = inl refl

-- Ana asks for level 2, and is granted it.
abbrev waiting : Database
waiting = (create_request 7 100 10 KycLevel.level_2 [] bank).1

abbrev granted : Database
granted = (approve_request 200 7 "admin" waiting).1

Reach-granted : Reach bank granted
Reach-granted =
    Reach.next (Reach.next Reach.here (Step.create 7 100 10 KycLevel.level_2 []))
      (Step.approve 200 7 "admin")

waiting_one : length (pending 10 waiting) ≡ 1
unfolding kyc
waiting_one = refl

granted_level : level_at 10 granted ≡ 2
unfolding kyc
granted_level = refl

Reach-one_pending_example :
    length (pending 10 (create_request 8 101 10 KycLevel.level_3 [] waiting).1) ≤ 1
Reach-one_pending_example = Reach-one_pending 10 bank-IsOrderly (
    Reach.next (Reach.next Reach.here (Step.create 7 100 10 KycLevel.level_2 []))
      (Step.create 8 101 10 KycLevel.level_3 []))

Reach-levels_rise_example : level_at 10 bank ≤ level_at 10 granted
Reach-levels_rise_example = Reach-levels_rise 10 bank-IsOrderly Reach-granted

request_waits :
    request_by_id 7 waiting ≡ some (draft_request 7 100 10 KycLevel.level_1 KycLevel.level_2 [])
unfolding kyc
request_waits = refl

approval_ok : approve_request 200 7 "admin" waiting ≡ (ok tt, granted)
unfolding kyc
approval_ok = refl

reason_given : (str_eq "blurred" "" || str_eq (trim "blurred") "") ≡ false
unfolding kyc
reason_given = refl

approve_request_once_example :
    (approve_request 300 7 "boss" granted
      ≡ (err (reviewed_error KycUpgradeRequestStatus.approved), granted))
    × (reject_request 300 7 "boss" "blurred" granted
        ≡ (err (reviewed_error KycUpgradeRequestStatus.approved), granted))
approve_request_once_example =
    approve_request_once 200 300 7 "admin" "boss" "blurred" waiting request_waits approval_ok
      reason_given

seed-get_monthly_limit_example :
    (get_monthly_limit CustomerType.pj KycLevel.level_2 (seed_kyc_level_configs bank).1).0
    ≡ ok (pos 20_000_000)
seed-get_monthly_limit_example = seed-get_monthly_limit CustomerType.pj KycLevel.level_2 bank

abbrev month : Month
month = record { start = 0; stop = 1000 }

ana_known : customer_by_id 10 bank ≡ some (customer 10 "Ana" "ana")
unfolding kyc
ana_known = refl

no_config : config_by KycLevel.level_1 CustomerType.pf bank ≡ none
unfolding kyc
no_config = refl

validate_unconfigured_example :
    (validate_transaction_limit scaled month 10 (1_000_000 * scale) bank).0 ≡ ok (true, none)
validate_unconfigured_example =
    validate_unconfigured scaled month 10 (1_000_000 * scale) bank ana_known no_config

abbrev funded : Database
funded = (process_pix_deposit 100 7 "k1" (pos 500_000_000) none "e1" bank).1

validate-process_pix_withdraw_example :
    (validate_transaction_limit scaled month 10 scale
      (process_pix_withdraw 103 9 10 (pos 400_000_000) "x" none funded).1).0
    ≡ (validate_transaction_limit scaled month 10 scale funded).0
validate-process_pix_withdraw_example =
    validate-process_pix_withdraw scaled month 103 9 10 (pos 400_000_000) "x" none 10 scale funded
