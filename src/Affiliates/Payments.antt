-- ===== src/Affiliates/Payments.antt =====
-- The earnings columns when a commission is booked and when commissions are paid
-- (src/affiliates/affiliates.service.ts).
use otsem_api.Common.{
  ℕ, ℤ, pos_part, neg_part, Bool, true, false, ◌≡◌, refl, sym, ap, ◌∙◌, subst, inl, inr, some, List,
  [], ◌∷◌, arith, ◌==◌, ◌+ℤ◌, ◌-ℤ◌, int_laws, select, All, Bool-cases, ==_sound,
}
use otsem_api.Database.Enums.{CommissionStatus, commission_status_is}
use otsem_api.Database.Rows.{Affiliate, AffiliateCommission, Database}
use otsem_api.Database.Tables.{update_where, sum_of, find-by_sound}
use otsem_api.Affiliates.Commissions.{affiliate_by_id, is_pending_of, earn, collect}
use otsem_api.Affiliates.Sums.{
  sum_where, sum_where-leaving, sum_where-entering, sum_where-untouched,
}
use otsem_api.Affiliates.Earnings.{
  is_paid_of, brl, usdt, Earned, IsBalanced, written, booked, paid, found_before,
}

-- What a call writes to the commissions it pays.
pub record Pays (f : AffiliateCommission → AffiliateCommission) : Type 0 where
  pub status_paid : (c : AffiliateCommission) → (f c).status ≡ CommissionStatus.paid
  pub keeps_affiliate : (c : AffiliateCommission) → (f c).affiliate_id ≡ c.affiliate_id
  pub keeps_brl : (c : AffiliateCommission) → brl (f c) ≡ brl c
  pub keeps_usdt : (c : AffiliateCommission) → usdt (f c) ≡ usdt c

found_id : (u : ℕ) (db : Database) {a : Affiliate} → affiliate_by_id u db ≡ some a → a.id ≡ u
unfolding affiliate_by_id
found_id u db {a} e = find-by_sound (λ a. a.id) u db.affiliates e

added : (x y s : ℤ) → x ≡ s → x +ℤ y ≡ y +ℤ s
added x y s e = let p = ap pos_part e in let n = ap neg_part e in omega int_laws

removed : (x q s s' : ℤ) → x ≡ s → s' +ℤ q ≡ s → x -ℤ q ≡ s'
removed x q s s' e l =
    let p = ap pos_part e in
    let n = ap neg_part e in let p' = ap pos_part l in let n' = ap neg_part l in omega int_laws

Earned-booked :
    (b : Affiliate) (c : AffiliateCommission) (rows : List AffiliateCommission)
    → c.status ≡ CommissionStatus.pending
    → (c.affiliate_id == b.id) ≡ true
    → Earned b rows
    → Earned (earn (brl c) (usdt c) b) (c ∷ rows)
unfolding sum_where select sum_of is_pending_of is_paid_of commission_status_is
Earned-booked b c rows s same e = record {
  pending_brl = rw (same, s) (added _ _ _ e.pending_brl);
  pending_usdt = rw (same, s) (added _ _ _ e.pending_usdt);
  paid_brl = rw (same, s) e.paid_brl;
  paid_usdt = rw (same, s) e.paid_usdt;
}

Earned-foreign :
    (b : Affiliate) (c : AffiliateCommission) (rows : List AffiliateCommission)
    → (c.affiliate_id == b.id) ≡ false
    → Earned b rows
    → Earned b (c ∷ rows)
unfolding sum_where select is_pending_of is_paid_of
Earned-foreign b c rows other e = record {
  pending_brl = rw other e.pending_brl;
  pending_usdt = rw other e.pending_usdt;
  paid_brl = rw other e.paid_brl;
  paid_usdt = rw other e.paid_usdt;
}

known_booked :
    (c : AffiliateCommission) (u : ℕ) (db : Database) {b : Affiliate}
    → affiliate_by_id u (booked c db) ≡ some b
    → affiliate_by_id u db ≡ some b
unfolding affiliate_by_id
known_booked c u db h = h

-- A pending commission that is created and added to what its affiliate has pending.
pub booked-IsBalanced :
    (c : AffiliateCommission) (db : Database)
    → c.status ≡ CommissionStatus.pending
    → IsBalanced db
    → IsBalanced (written c.affiliate_id (earn (brl c) (usdt c)) (booked c db))
booked-IsBalanced c db s o u a e =
    let (b, known, same) =
      found_before c.affiliate_id u (earn (brl c) (usdt c)) (λ x. refl) (booked c db) e in
    let known' = known_booked c u db known in
    let at = found_id u db known' in
    elim (Bool-cases (c.affiliate_id == u)) [
      | inl yours ↦
          let is : a ≡ earn (brl c) (usdt c) b = rw yours at same in
          rw is (Earned-booked b c db.affiliate_commissions s (rw at yours) (o u b known'))
      | inr other ↦
          let is : a ≡ b = rw other at same in
          rw is (Earned-foreign b c db.affiliate_commissions (rw at other) (o u b known'))
    ]

-- The rows that `q` chooses are pending commissions of the affiliate.
abbrev pub Chosen : ℕ → (AffiliateCommission → Bool) → List AffiliateCommission → Type 0
Chosen id q rows = All (λ c. q c ≡ true → is_pending_of id c ≡ true) rows

All-map :
    {A : Type 0} {P Q : A → Type 0} → ((x : A) → P x → Q x) → (xs : List A) → All P xs → All Q xs
All-map g [] h = tt
All-map g (x ∷ xs) h = (g x h.0, All-map g xs h.1)

module _ (q : AffiliateCommission → Bool) (f : AffiliateCommission → AffiliateCommission)
    (w : Pays f) (c : AffiliateCommission) where
  leaves :
      (id : ℕ)
      → (q c ≡ true → is_pending_of id c ≡ true)
      → q c ≡ true
      → (is_pending_of id c ≡ true) × (is_pending_of id (f c) ≡ false)
  unfolding is_pending_of commission_status_is
  leaves id h e = ground (arith, w.status_paid c)

  enters :
      (id : ℕ)
      → (q c ≡ true → is_pending_of id c ≡ true)
      → q c ≡ true
      → (is_paid_of id c ≡ false) × (is_paid_of id (f c) ≡ true)
  unfolding is_pending_of is_paid_of commission_status_is
  enters id h e = ground (arith, w.status_paid c, w.keeps_affiliate c)

  pending_elsewhere :
      (id b : ℕ)
      → (id == b) ≡ false
      → (q c ≡ true → is_pending_of id c ≡ true)
      → q c ≡ true
      → (is_pending_of b c ≡ false) × (is_pending_of b (f c) ≡ false)
  unfolding is_pending_of commission_status_is
  pending_elsewhere id b n h e = ground (arith, w.status_paid c, w.keeps_affiliate c)

  paid_elsewhere :
      (id b : ℕ)
      → (id == b) ≡ false
      → (q c ≡ true → is_pending_of id c ≡ true)
      → q c ≡ true
      → (is_paid_of b c ≡ false) × (is_paid_of b (f c) ≡ false)
  unfolding is_pending_of is_paid_of commission_status_is
  paid_elsewhere id b n h e = ground (arith, w.status_paid c, w.keeps_affiliate c)

module _ (q : AffiliateCommission → Bool) (f : AffiliateCommission → AffiliateCommission)
    (w : Pays f) (b : Affiliate) (rows : List AffiliateCommission) where
  Earned-paid :
      Chosen b.id q rows
      → Earned b rows
      → Earned (collect (sum_where q brl rows) (sum_where q usdt rows) b) (update_where q f rows)
  Earned-paid h e =
      let out = All-map (λ c. leaves q f w c b.id) rows h in
      let in' = All-map (λ c. enters q f w c b.id) rows h in
      let pending = is_pending_of b.id in
      let done = is_paid_of b.id in
      record {
        pending_brl =
            removed _ _ _ _ e.pending_brl (sum_where-leaving q pending f brl w.keeps_brl rows out);
        pending_usdt =
            removed _ _ _ _ e.pending_usdt
              (sum_where-leaving q pending f usdt w.keeps_usdt rows out);
        paid_brl = rw (e.paid_brl) (sym (sum_where-entering q done f brl w.keeps_brl rows in'));
        paid_usdt = rw (e.paid_usdt) (sym (sum_where-entering q done f usdt w.keeps_usdt rows in'));
      }

  Earned-untouched :
      (id : ℕ)
      → (id == b.id) ≡ false
      → Chosen id q rows
      → Earned b rows
      → Earned b (update_where q f rows)
  Earned-untouched id n h e =
      let p = All-map (λ c. pending_elsewhere q f w c id b.id n) rows h in
      let d = All-map (λ c. paid_elsewhere q f w c id b.id n) rows h in
      let pending = is_pending_of b.id in
      let done = is_paid_of b.id in
      record {
        pending_brl = e.pending_brl ∙ sym (sum_where-untouched q pending f brl w.keeps_brl rows p);
        pending_usdt =
            e.pending_usdt ∙ sym (sum_where-untouched q pending f usdt w.keeps_usdt rows p);
        paid_brl = e.paid_brl ∙ sym (sum_where-untouched q done f brl w.keeps_brl rows d);
        paid_usdt = e.paid_usdt ∙ sym (sum_where-untouched q done f usdt w.keeps_usdt rows d);
      }

known_paid :
    (q : AffiliateCommission → Bool) (f : AffiliateCommission → AffiliateCommission) (u : ℕ)
    (db : Database) {b : Affiliate}
    → affiliate_by_id u (paid q f db) ≡ some b
    → affiliate_by_id u db ≡ some b
unfolding affiliate_by_id
known_paid q f u db h = h

-- Pending commissions of one affiliate that are paid, and collected with their sums.
pub paid-IsBalanced :
    (id : ℕ) (q : AffiliateCommission → Bool) (f : AffiliateCommission → AffiliateCommission)
    (x y : ℤ) (db : Database)
    → Pays f
    → Chosen id q db.affiliate_commissions
    → x ≡ sum_where q brl db.affiliate_commissions
    → y ≡ sum_where q usdt db.affiliate_commissions
    → IsBalanced db
    → IsBalanced (written id (collect x y) (paid q f db))
paid-IsBalanced id q f x y db w h ex ey o u a e =
    let (b, known, same) = found_before id u (collect x y) (λ z. refl) (paid q f db) e in
    let known' = known_paid q f u db known in
    let at = found_id u db known' in
    elim (Bool-cases (id == u)) [
      | inl yours ↦
          let is : a ≡ collect x y b = rw yours at same in
          let h' : Chosen b.id q db.affiliate_commissions =
            subst (λ j. Chosen j q db.affiliate_commissions) (==_sound id u yours ∙ sym at) h in
          rw (is, ex, ey) (Earned-paid q f w b db.affiliate_commissions h' (o u b known'))
      | inr other ↦
          let is : a ≡ b = rw other at same in
          rw is
            (Earned-untouched q f w b db.affiliate_commissions id (rw at other) h (o u b known'))
    ]
