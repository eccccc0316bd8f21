-- ===== src/Risk/Gates.antt =====
-- The hard gates (backend/app/risk/rules.py) against conditions on the context's data.
use alpha_council.Base.{
  ◌≡◌, refl, ◌≢◌, ◌↔◌, Bool, true, false, Option, none, some, List, [], ◌∷◌, ◌++◌, arith, All,
  select, Bool-cases, List-cases, ◌∙◌, inl, inr, str_eq,
}
use alpha_council.Decimal.{Decimal, decimal, leb, add, sub, div, nought, one, neg}
use alpha_council.Decimal.Laws.{IsDecimal}
use alpha_council.Decimal.Lemmas.{lt_of_lt_of_le}
use alpha_council.Committee.Models.{no_trade}
use alpha_council.Risk.Models.{
  RiskContext, current_drawdown, daily_return, is_hard_rejection, hard_rejections,
}
use alpha_council.Risk.HardGates.{
  check_kill_switch, check_m3_no_trade, check_thesis_valid, check_data_quality,
  check_committee_confidence, check_price_valid, check_daily_loss, check_max_drawdown, quote_is_bad,
}
use alpha_council.Risk.SoftReductions.{
  check_volatility, check_liquidity, check_confidence_reduction, check_symbol_concentration,
  check_gross_exposure, check_net_exposure, check_max_positions, check_group_concentration,
  check_correlation_redundancy,
}
use alpha_council.Risk.Rules.{hard_checks, soft_checks, evaluate_all}

module _ {ℓ} {A : Type ℓ} (p : A → Bool) where
  select-append : (xs ys : List A) → select p (xs ++ ys) ≡ select p xs ++ select p ys
  unfolding select
  select-append [] ys = refl
  select-append (x ∷ xs) ys = elim (Bool-cases (p x)) [
    | inl e ↦ rw (e, select-append xs ys)
    | inr e ↦ rw (e, select-append xs ys)
  ]

  pub select-nil : (xs : List A) → (select p xs ≡ []) ↔ All (λ x. p x ≡ false) xs
  unfolding select
  select-nil [] = (λ h. tt, λ h. refl)
  select-nil (x ∷ xs) = ground (arith, select-nil xs)

module _ {D : Type 0} ⦃d : Decimal D⦄ where
  -- A quote of two positive prices that are not crossed, with a spread of at most five percent.
  abbrev pub QuoteIsSane : Option D → Option D → Type 0
  QuoteIsSane (some bid) (some ask) =
      let mid = div (add bid ask) (decimal 20_000) in
      (leb bid nought ≡ false)
      × (leb ask nought ≡ false)
      × (leb bid ask ≡ true)
      × (leb mid nought ≡ false → leb (div (sub ask bid) mid) (decimal 500) ≡ true)
  QuoteIsSane (some bid) none = Unit
  QuoteIsSane none ask = Unit

  pub record IsCleared (ctx : RiskContext D) : Type 0 where
    pub kill_switch_off : ctx.risk_state.kill_switch_active ≡ false
    pub has_decision : ctx.trade_thesis.committee_decision.decision ≢ no_trade
    pub has_symbol : str_eq ctx.trade_thesis.symbol "" ≡ false
    pub confident : leb (decimal 6000) ctx.trade_thesis.committee_confidence ≡ true
    pub confidence_at_most_one : leb ctx.trade_thesis.committee_confidence one ≡ true
    pub price_positive : leb ctx.reference_price nought ≡ false
    pub quote_sane : QuoteIsSane ctx.bid_price ctx.ask_price
    pub loss_in_limit : leb (neg (decimal 300)) (daily_return ctx.risk_state) ≡ true
    pub drawdown_in_limit : leb (current_drawdown ctx.risk_state) (decimal 1000) ≡ true

  pub soft_checks-no-hard :
      (ctx : RiskContext D) → All (λ c. is_hard_rejection c ≡ false) (soft_checks ctx)
  unfolding soft_checks check_volatility check_liquidity check_confidence_reduction
      check_symbol_concentration check_gross_exposure check_net_exposure check_max_positions
      check_group_concentration check_correlation_redundancy
  soft_checks-no-hard ctx = ground arith

  -- The soft reductions add no hard rejection, so those of an evaluation are the gates' own.
  pub hard_rejections-evaluate_all :
      (ctx : RiskContext D) → hard_rejections (evaluate_all ctx) ≡ hard_rejections (hard_checks ctx)
  unfolding evaluate_all
  hard_rejections-evaluate_all ctx = elim (List-cases (hard_rejections (hard_checks ctx))) [
    | inl e ↦
        rw (e, evaluate_all)
          (select-append is_hard_rejection (hard_checks ctx) (soft_checks ctx)
            ∙ rw (e, (select-nil is_hard_rejection (soft_checks ctx)).1 (soft_checks-no-hard ctx)))
    | inr (c, r, e) ↦ rw (e, evaluate_all) e
  ]

  module _ (laws : IsDecimal D) where
    quote_lem : (bid ask : Option D) → (quote_is_bad bid ask ≡ false) ↔ QuoteIsSane bid ask
    unfolding quote_is_bad
    quote_lem none ask = (λ h. tt, λ h. refl)
    quote_lem (some bid) none = (λ h. tt, λ h. refl)
    quote_lem (some bid) (some ask) = ground arith

    hard_checks_lem :
        (ctx : RiskContext D)
        → All (λ c. is_hard_rejection c ≡ false) (hard_checks ctx) ↔ IsCleared ctx
    unfolding hard_checks check_kill_switch check_m3_no_trade check_thesis_valid check_data_quality
        check_committee_confidence check_price_valid check_daily_loss check_max_drawdown
    hard_checks_lem ctx =
        let conf = ctx.trade_thesis.committee_confidence in
        (
          λ h. ground (arith, quote_lem ctx.bid_price ctx.ask_price),
          λ h. ground (
            arith,
            quote_lem ctx.bid_price ctx.ask_price,
            laws.constant_le 0 6000,
            laws.constant_le 6000 0,
            laws.le_trans nought (decimal 6000) conf,
            lt_of_lt_of_le laws nought (decimal 6000) conf,
          ),
        )

    -- No check of an evaluation is a hard rejection exactly when the context is cleared.
    pub evaluate_all-IsCleared :
        (ctx : RiskContext D) → (hard_rejections (evaluate_all ctx) ≡ []) ↔ IsCleared ctx
    evaluate_all-IsCleared ctx =
        let (to, from) = select-nil is_hard_rejection (hard_checks ctx) in
        rw hard_rejections-evaluate_all
          (λ h. (hard_checks_lem ctx).0 (to h), λ h. from ((hard_checks_lem ctx).1 h))
