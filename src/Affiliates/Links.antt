-- ===== src/Affiliates/Links.antt =====
-- `getAffiliateForCustomer` of src/affiliates/affiliates.service.ts: whose customer it is.
use otsem_api.Common.{ℕ, Option, none, some, if◌then◌else◌}
use otsem_api.Database.Rows.{Customer, Affiliate, Database}
use otsem_api.Database.Queries.{customer_by_id}
use otsem_api.Affiliates.Commissions.{affiliate_by_id}

-- Only an active affiliate counts.
abbrev pub when_active : Option Affiliate → Option Affiliate
when_active none = none
when_active (some a) = if a.is_active then some a else none

abbrev pub affiliate_of : Option Customer → Database → Option Affiliate
affiliate_of none db = none
affiliate_of (some c) db = elim c.affiliate_id [ none ↦ none | some id ↦ affiliate_by_id id db ]

unfoldable pub get_affiliate_for_customer : ℕ → Database → Option Affiliate
get_affiliate_for_customer customer_id db =
    when_active (affiliate_of (customer_by_id customer_id db) db)
