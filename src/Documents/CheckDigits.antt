-- ===== src/Documents/CheckDigits.antt =====
-- The weighted sums of the validators against the published weights, and what they determine.
use otsem_api.Common.{
  ℕ, zero, suc, ◌+◌, ◌-◌, ◌*◌, ◌%◌, ◌&&◌, Bool, true, false, not, ◌≡◌, refl, ap, sym, ◌∙◌, List, [],
  ◌∷◌, ◌++◌, ◌==◌, arith, length, if◌then◌else◌, ==_sound,
}
use otsem_api.Documents.Validator.{
  weigh_down, weigh_cycle, next_pos, digit_at, all_same, cpf_check_digit, check_cpf,
  cnpj_check_digit, check_cnpj,
}

-- The sum of the products of weights and digits.
abbrev pub dot : List ℕ → List ℕ → ℕ
dot [] ds = 0
dot (w ∷ ws) [] = 0
dot (w ∷ ws) (d ∷ ds) = d * w + dot ws ds

abbrev down_from : (n weight : ℕ) → List ℕ
down_from zero weight = []
down_from (suc n) weight = weight ∷ down_from n (weight - 1)

abbrev cycle_from : (n pos : ℕ) → List ℕ
cycle_from zero pos = []
cycle_from (suc n) pos = pos ∷ cycle_from n (next_pos pos)

weigh_down-dot : (n w : ℕ) (ds : List ℕ) → weigh_down n w ds ≡ dot (down_from n w) ds
weigh_down-dot zero w ds = refl
weigh_down-dot (suc n) w [] = refl
weigh_down-dot (suc n) w (d ∷ ds) = ap (λ s. d * w + s) (weigh_down-dot n (w - 1) ds)

weigh_cycle-dot : (n p : ℕ) (ds : List ℕ) → weigh_cycle n p ds ≡ dot (cycle_from n p) ds
weigh_cycle-dot zero p ds = refl
weigh_cycle-dot (suc n) p [] = refl
weigh_cycle-dot (suc n) p (d ∷ ds) = ap (λ s. d * p + s) (weigh_cycle-dot n (next_pos p) ds)

-- The published rule: a check digit is ten times the weighted sum, modulo 11 and then modulo 10.
abbrev fits_rule : List ℕ → (i : ℕ) → List ℕ → Bool
fits_rule weights i ds = 10 * dot weights ds % 11 % 10 == digit_at i ds

abbrev pub is_cpf : List ℕ → Bool
is_cpf ds =
    (length ds == 11)
    && not (all_same ds)
    && fits_rule (10 ∷ 9 ∷ 8 ∷ 7 ∷ 6 ∷ 5 ∷ 4 ∷ 3 ∷ 2 ∷ []) 9 ds
    && fits_rule (11 ∷ 10 ∷ 9 ∷ 8 ∷ 7 ∷ 6 ∷ 5 ∷ 4 ∷ 3 ∷ 2 ∷ []) 10 ds

abbrev pub is_cnpj : List ℕ → Bool
is_cnpj ds =
    (length ds == 14)
    && not (all_same ds)
    && fits_rule (5 ∷ 4 ∷ 3 ∷ 2 ∷ 9 ∷ 8 ∷ 7 ∷ 6 ∷ 5 ∷ 4 ∷ 3 ∷ 2 ∷ []) 12 ds
    && fits_rule (6 ∷ 5 ∷ 4 ∷ 3 ∷ 2 ∷ 9 ∷ 8 ∷ 7 ∷ 6 ∷ 5 ∷ 4 ∷ 3 ∷ 2 ∷ []) 13 ds

cpf_check_digit_rule : (s : ℕ) → cpf_check_digit s ≡ 10 * s % 11 % 10
unfolding cpf_check_digit
cpf_check_digit_rule s = ground arith

cnpj_check_digit_rule : (s : ℕ) → cnpj_check_digit s ≡ 10 * s % 11 % 10
unfolding cnpj_check_digit
cnpj_check_digit_rule s = ground arith

guards-&& :
    (a b c d : Bool)
    → (if not a
        then false
        else if b
        then false
        else if not c
        then false
        else if not d
        then false
        else true)
      ≡ (a && not b && c && d)
guards-&& a b c d = ground arith

check_cpf-is_cpf : (ds : List ℕ) → check_cpf ds ≡ is_cpf ds
unfolding check_cpf
check_cpf-is_cpf ds =
    rw
      (
        guards-&& (length ds == 11) (all_same ds)
            (cpf_check_digit (weigh_down 9 10 ds) == digit_at 9 ds)
            (cpf_check_digit (weigh_down 10 11 ds) == digit_at 10 ds),
        cpf_check_digit_rule (weigh_down 9 10 ds),
        cpf_check_digit_rule (weigh_down 10 11 ds),
        weigh_down-dot 9 10 ds,
        weigh_down-dot 10 11 ds,
      )
      refl

check_cnpj-is_cnpj : (ds : List ℕ) → check_cnpj ds ≡ is_cnpj ds
unfolding check_cnpj
check_cnpj-is_cnpj ds =
    rw
      (
        guards-&& (length ds == 14) (all_same ds)
            (cnpj_check_digit (weigh_cycle 12 5 ds) == digit_at 12 ds)
            (cnpj_check_digit (weigh_cycle 13 6 ds) == digit_at 13 ds),
        cnpj_check_digit_rule (weigh_cycle 12 5 ds),
        cnpj_check_digit_rule (weigh_cycle 13 6 ds),
        weigh_cycle-dot 12 5 ds,
        weigh_cycle-dot 13 6 ds,
      )
      refl

-- The two checks follow the published rule: a list of digits is a CPF where it has 11 digits that
-- are not all the same, and each of the last two is ten times the sum of the digits before it by
-- their published weights, modulo 11 and then modulo 10; and a CNPJ likewise, with 14 digits.
pub check_cpf-check_cnpj : (ds : List ℕ) → (check_cpf ds ≡ is_cpf ds) × (check_cnpj ds ≡ is_cnpj ds)
check_cpf-check_cnpj ds = (check_cpf-is_cpf ds, check_cnpj-is_cnpj ds)

-- A sum over the first n digits does not read on.
weigh_down-prefix :
    (n w : ℕ) (ds es : List ℕ) → length ds ≡ n → weigh_down n w (ds ++ es) ≡ weigh_down n w ds
weigh_down-prefix zero w ds es h = refl
weigh_down-prefix (suc n) w [] es h = absurd (omega arith)
weigh_down-prefix (suc n) w (d ∷ ds) es h =
    ap (λ s. d * w + s) (weigh_down-prefix n (w - 1) ds es (omega arith))

digit_at-append : (n : ℕ) (ds es : List ℕ) → length ds ≡ n → digit_at n (ds ++ es) ≡ digit_at 0 es
digit_at-append zero [] es h = refl
digit_at-append zero (d ∷ ds) es h = absurd (omega arith)
digit_at-append (suc n) [] es h = absurd (omega arith)
digit_at-append (suc n) (d ∷ ds) es h = digit_at-append n ds es (omega arith)

guards :
    (a b c d : Bool)
    → (if not a
        then false
        else if b
        then false
        else if not c
        then false
        else if not d
        then false
        else true)
      ≡ true
    → (c ≡ true) × (d ≡ true)
guards a b c d h = ground arith

check_cpf-digits :
    (ds : List ℕ)
    → check_cpf ds ≡ true
    → (cpf_check_digit (weigh_down 9 10 ds) ≡ digit_at 9 ds)
      × (cpf_check_digit (weigh_down 10 11 ds) ≡ digit_at 10 ds)
unfolding check_cpf
check_cpf-digits ds h =
    let (first, second) =
      guards (length ds == 11) (all_same ds) (cpf_check_digit (weigh_down 9 10 ds) == digit_at 9 ds)
        (cpf_check_digit (weigh_down 10 11 ds) == digit_at 10 ds) h in
    (==_sound _ _ first, ==_sound _ _ second)

append_assoc : (ds : List ℕ) (a : ℕ) (es : List ℕ) → ds ++ a ∷ es ≡ (ds ++ a ∷ []) ++ es
append_assoc [] a es = refl
append_assoc (d ∷ ds) a es = ap (λ xs. d ∷ xs) (append_assoc ds a es)

length-append_one : (ds : List ℕ) (a : ℕ) → length (ds ++ a ∷ []) ≡ suc (length ds)
length-append_one [] a = refl
length-append_one (d ∷ ds) a = ap suc (length-append_one ds a)

first_digit :
    (ds : List ℕ) (a b : ℕ)
    → length ds ≡ 9
    → check_cpf (ds ++ a ∷ b ∷ []) ≡ true
    → a ≡ cpf_check_digit (weigh_down 9 10 ds)
first_digit ds a b n h =
    sym (digit_at-append 9 ds (a ∷ b ∷ []) n)
    ∙ sym (check_cpf-digits (ds ++ a ∷ b ∷ []) h).0
    ∙ ap cpf_check_digit (weigh_down-prefix 9 10 ds (a ∷ b ∷ []) n)

second_digit :
    (ds : List ℕ) (a b : ℕ)
    → length ds ≡ 9
    → check_cpf (ds ++ a ∷ b ∷ []) ≡ true
    → b ≡ cpf_check_digit (weigh_down 10 11 (ds ++ a ∷ []))
second_digit ds a b n h =
    let longer = length-append_one ds a ∙ ap suc n in
    let valid = ap check_cpf (sym (append_assoc ds a (b ∷ []))) ∙ h in
    sym (digit_at-append 10 (ds ++ a ∷ []) (b ∷ []) longer)
    ∙ sym (check_cpf-digits ((ds ++ a ∷ []) ++ b ∷ []) valid).1
    ∙ ap cpf_check_digit (weigh_down-prefix 10 11 (ds ++ a ∷ []) (b ∷ []) longer)

-- The first nine digits of a valid CPF determine its two check digits.
pub check_cpf_unique :
    (ds : List ℕ) (a b a' b' : ℕ)
    → length ds ≡ 9
    → check_cpf (ds ++ a ∷ b ∷ []) ≡ true
    → check_cpf (ds ++ a' ∷ b' ∷ []) ≡ true
    → (a ≡ a') × (b ≡ b')
check_cpf_unique ds a b a' b' n h h' =
    let first = first_digit ds a b n h ∙ sym (first_digit ds a' b' n h') in
    (
      first,
      second_digit ds a b n h
          ∙ ap (λ x. cpf_check_digit (weigh_down 10 11 (ds ++ x ∷ []))) first
          ∙ sym (second_digit ds a' b' n h'),
    )
