-- ===== src/Committee/Tests.antt =====
-- Runs of the committee on concrete opinions, with decimals of four places.
use alpha_council.Base.{
  All, ◌*◌, String, ◌≡◌, refl, true, false, none, some, List, [], ◌∷◌, select, str_eq, arith,
  is_some, is_empty, map,
}
use mathlib.Core.Path.{subst}
use alpha_council.Committee.Scores.{IsFraction}
use alpha_council.Base.Int.{ℤ, pos}
use alpha_council.Base.Dict.{get}
use alpha_council.Decimal.{decimal, leb, whole}
use alpha_council.Decimal.Fixed.{fixed, fixed-IsDecimal}
use alpha_council.Alpaca.{answered}
use alpha_council.Market.{up, good}
use alpha_council.Discovery.Models.{Candidate, SignalDirection}
use alpha_council.Committee.Models.{
  get_evidence, AgentRole, quant, bull, bear, regime, AgentStance, long, neutral, strong_long,
  strong_short, abstain, AgentOpinion, AgentResult, AgentChallenge, propose_short, high,
}
use alpha_council.Committee.Evidence.{Format, build_evidence_packet, items_of, slots_of}
use alpha_council.Committee.Agents.{
  Backend, analyze, answer, rebuilt, replied, parse_opinion, opinion_from, rebut, failed_result,
}
use alpha_council.Committee.Disagreement.{
  detect_disagreement, generate_challenges, tally, classify_severity, report_values, report_on,
  is_high,
}
use alpha_council.Committee.Aggregation.{
  Float, default_weights, aggregate, aggregate_opinions, scored, norm_weights, normalized_stance,
  score_of, decision_of, valid_opinions, stance_decimal,
}
use alpha_council.Committee.EvidenceIds.{get_evidence-build_evidence_packet}
use alpha_council.Committee.Decisions.{IsCoherent, aggregate-IsCoherent}
use alpha_council.Committee.Ranges.{IsInRange, aggregate-IsInRange, disagreement_lowers}
use alpha_council.Committee.Severity.{IsAccount, detect_disagreement-IsAccount, high_has_both_sides}
use alpha_council.Committee.Challenges.{AllOf, IsAimed, generate_challenges-IsAimed}
use alpha_council.Committee.Grounding.{IsGrounded, analyze-IsGrounded, rebut-failed_result}
use alpha_council.Committee.Firsts.{IsValidating}
use alpha_council.Committee.Service.{result_of_opinion, evaluate_candidate}
use alpha_council.Committee.Verdicts.{uncounted, evaluate_candidate_total, rebuttal_changes_nothing}

instance abbrev floats : Float ℤ
floats = record { fraction = λ n. pos (n * 100); plus = fixed.plus; over = fixed.over }

abbrev exact : ℤ → ℤ
exact x = x

abbrev opinion : AgentRole → AgentStance → AgentOpinion ℤ
opinion role stance = record {
  agent_role = role;
  symbol = "AAPL";
  stance = stance;
  confidence = decimal 8_000;
  thesis = "a thesis";
  supporting_evidence_ids = "E_PRICE" ∷ [];
  contradicting_evidence_ids = [];
  key_risks = [];
  invalidation_conditions = [];
  round = 1;
}

abbrev torn : List (AgentOpinion ℤ)
torn =
    opinion quant strong_long
    ∷ opinion bull strong_long
    ∷ opinion bear strong_short
    ∷ opinion regime abstain
    ∷ []

abbrev results : List (AgentResult ℤ)
results = map (λ o. result_of_opinion o) torn

-- Three agents without a view on the direction.
abbrev undecided : List (AgentResult ℤ)
undecided =
    map (λ o. result_of_opinion o)
      (opinion quant neutral ∷ opinion bull neutral ∷ opinion bear neutral ∷ [])

abbrev format : Format ℤ
format = record {
  fixed = λ n v. "1.00";
  whole_text = λ n. "1";
  count_text = λ n. "1";
  dollar_text = λ p v. "$1.0M";
}

abbrev candidate : Candidate ℤ
candidate = record {
  symbol = "AAPL";
  rank = 1;
  direction = SignalDirection.bullish;
  opportunity_score = record {
    total = whole 70;
    direction = SignalDirection.bullish;
    reasons = [];
  };
  market_state = record {
    symbol = "AAPL";
    snapshot = record {
      quote = none;
      trade = some (record { price = whole 100 });
      daily_bar = none;
    };
    latest_bar = none;
    features = record {
      return_1d = none;
      return_5d = none;
      return_20d = none;
      momentum_5d = none;
      momentum_20d = none;
      sma_20 = none;
      sma_50 = none;
      ema_20 = none;
      ema_50 = none;
      distance_sma20_pct = none;
      distance_sma50_pct = none;
      rsi_14 = none;
      atr_14 = some (whole 2);
      atr_pct = none;
      realized_vol_20 = none;
      avg_volume_20 = none;
      volume_ratio = none;
      volume_zscore = none;
      current_drawdown = none;
      trend_short = up;
      trend_medium = up;
    };
    data_quality = record {
      status = good;
      bars_requested = 100;
      bars_received = 100;
      warnings = [];
    };
  };
}

-- A model whose every reply is the bullish agent's.
abbrev backend : Backend String ℤ
backend = record {
  call_llm = λ role request. answered "{}";
  strip = λ s. s;
  loads = λ s. some (
      record { key = "agent_role"; value = "BULL" }
      ∷ record { key = "symbol"; value = "AAPL" }
      ∷ record { key = "stance"; value = "LONG" }
      ∷ record { key = "confidence"; value = "0.8" }
      ∷ record { key = "thesis"; value = "a thesis" }
      ∷ []);
  is_text = λ v t. str_eq v t;
  validated = λ fields. some (opinion bull long);
}

backend-IsValidating : IsValidating backend
backend-IsValidating fields o e =
    subst (λ x. elim x [ none ↦ Unit {0} | some p ↦ IsFraction p.confidence ]) e (refl, refl)

neutral_committee_proposes_short :
    (aggregate exact default_weights undecided (some high)).decision ≡ propose_short
unfolding aggregate aggregate_opinions valid_opinions select get norm_weights scored decision_of
    score_of normalized_stance stance_decimal
neutral_committee_proposes_short = refl

analyze_succeeds :
    (analyze backend bull (build_evidence_packet format candidate)).opinion
    ≡ some (opinion bull long)
unfolding analyze answer rebuilt replied parse_opinion opinion_from get select build_evidence_packet
    items_of slots_of
analyze_succeeds = refl

aggregate-IsCoherent_example : IsCoherent (aggregate exact default_weights results (some high))
aggregate-IsCoherent_example = aggregate-IsCoherent exact default_weights results (some high)

aggregate-IsInRange_example : IsInRange (aggregate exact default_weights results (some high))
aggregate-IsInRange_example =
    aggregate-IsInRange exact fixed-IsDecimal default_weights results (some high) (ground arith)

disagreement_lowers_example :
    leb
      (aggregate exact default_weights results (some high)).committee_score
      (aggregate exact default_weights results none).committee_score
    ≡ true
disagreement_lowers_example = disagreement_lowers exact fixed-IsDecimal default_weights results high

detect_disagreement-IsAccount_example : IsAccount torn (detect_disagreement torn)
detect_disagreement-IsAccount_example = detect_disagreement-IsAccount torn

torn-is_high : is_high (detect_disagreement torn).severity ≡ true
unfolding detect_disagreement report_on select report_values tally classify_severity
torn-is_high = refl

high_has_both_sides_example :
    (is_empty (detect_disagreement torn).bullish_agents ≡ false)
    × (is_empty (detect_disagreement torn).bearish_agents ≡ false)
high_has_both_sides_example = high_has_both_sides torn torn-is_high

generate_challenges-IsAimed_example :
    AllOf (IsAimed torn) (generate_challenges torn (detect_disagreement torn))
generate_challenges-IsAimed_example = generate_challenges-IsAimed torn (detect_disagreement torn)

analyze-IsGrounded_example :
    IsGrounded bull
      (build_evidence_packet format candidate)
      (analyze backend bull (build_evidence_packet format candidate))
analyze-IsGrounded_example =
    analyze-IsGrounded backend bull (build_evidence_packet format candidate)

abbrev challenge : AgentChallenge
challenge = record {
  target_agent = bull;
  source_agents = bear ∷ [];
  symbol = "AAPL";
  opposing_stances = [];
  challenged_evidence_ids = [];
  challenge_summary = record {
    challengers = bear ∷ [];
    challenged_stance = long;
    opposing_theses = [];
    key_evidence_ids = [];
  };
  round = 2;
}

rebut-failed_result_example :
    rebut backend bull (build_evidence_packet format candidate) challenge (opinion bull long)
    ≡ failed_result bull
rebut-failed_result_example =
    rebut-failed_result backend bull (build_evidence_packet format candidate) challenge
      (opinion bull long)

evaluate_candidate_total_example :
    is_some (evaluate_candidate exact format backend true candidate) ≡ true
evaluate_candidate_total_example =
    evaluate_candidate_total exact format backend fixed-IsDecimal backend-IsValidating true
      candidate

rebuttal_changes_nothing_example :
    uncounted (evaluate_candidate exact format backend true candidate)
    ≡ uncounted (evaluate_candidate exact format backend false candidate)
rebuttal_changes_nothing_example =
    rebuttal_changes_nothing exact format backend fixed-IsDecimal backend-IsValidating candidate

get_evidence-build_evidence_packet_example :
    All
      (λ item. get_evidence (build_evidence_packet format candidate) item.id ≡ some item)
      (build_evidence_packet format candidate).evidence
get_evidence-build_evidence_packet_example = get_evidence-build_evidence_packet format candidate
