-- ===== src/Lib.antt =====
-- AlphaCouncil is a paper-trading system. A committee of agents proposes a trade, a risk layer with
-- a fixed constitution approves, reduces or rejects it and sizes a budget, an instrument selector
-- turns it into a plan, an execution layer sends an order for that plan to Alpaca's paper account,
-- and a position layer watches what was bought and says when to sell it. This library models the
-- committee (backend/app/committee), the risk layer (backend/app/risk), the execution layer
-- (backend/app/execution), the core of the position layer (backend/app/positions) and the filters
-- of the search for candidates (backend/app/discovery), with the data that passes between them.
--
-- Files and code
--   Base              names, tests and list functions that all files share; dictionaries (Dict, DictLaws) and
--                     integers (Int) over the native numbers
--   Decimal           decimal.Decimal as a parameter: the operations (Decimal), what the code relies
--                     on of them (Decimal/Laws), and a concrete instance of four places
--                     (Decimal/Fixed) on which the definitions run; a division that may raise (Decimal/Quotient)
--   Alpaca, Market, Discovery, Instruments
--                     the records that the layers read (backend/app/alpaca/models.py,
--                     market/models.py, discovery/models.py, instruments/models.py)
--   Discovery/Filters, Discovery/Diversification
--                     backend/app/discovery/filters.py and diversification.py: the hard filters and
--                     the caps on the candidates of one category
--   Committee/Models  backend/app/committee/models.py
--   Committee/Evidence
--                     committee/evidence.py: `build_evidence_packet`, its items in the code's order
--   Committee/Agents  committee/agents/base.py: `analyze` and `rebut` of an agent, with the parsing
--                     and the validation of the model's reply
--   Committee/Disagreement, Committee/Rebuttal
--                     committee/disagreement.py: `detect_disagreement`, `generate_challenges`,
--                     `run_rebuttal_round`
--   Committee/Aggregation
--                     committee/aggregation.py: `aggregate_opinions`, `aggregate` of the chair,
--                     `determine_final_decision`
--   Committee/Service committee/service.py: `evaluate_candidate` and `evaluate_candidate_set`
--   Risk/Models, Risk/Constitution, Risk/HardGates, Risk/SoftReductions, Risk/Rules, Risk/Sizer,
--   Risk/Decision     backend/app/risk/models.py, constitution.py and rules.py: one function for each
--                     check, `evaluate_all` for RiskRulesEngine.evaluate_all, `compute_budget` for
--                     PositionSizer.compute_budget, `decide` for RiskDecisionEngine.decide
--   Risk/Service      backend/app/risk/service.py: the context from the gateways' answers
--   Execution/Models, Execution/Validation, Execution/Planner
--                     models.py, validation.py and authorization.py, planner.py of
--                     backend/app/execution
--   Execution/Store   store.py: the table, its constraints and its statements
--   Execution/Rows    store.py: the rows of texts that the table stands for, written and read
--   Execution/World   the state of a call: the store, the provider behind the SDK's client, and a
--                     journal of the orders that were sent; exceptions are results
--   Execution/Gateway, Execution/Tracking, Execution/Idempotency, Execution/Results,
--   Execution/Service, Execution/Reconciliation, Execution/Orders, Execution/Status
--                     gateway.py (with its other calls in Orders), tracking.py, idempotency.py,
--                     service.py (its records, its calls and its status query) and
--                     reconciliation.py of backend/app/execution
--   Positions/Models, Positions/Records
--                     backend/app/positions/models.py: the enumerations, the records, and the way
--                     of a position into its record and back (with monitor.py)
--   Positions/Metrics, Positions/ExitRules
--                     positions/metrics.py: PositionMetrics and ExitRulesEngine, whose rules are
--                     steps on what the earlier ones found
--   Positions/Store, Positions/Reconciliation, Positions/Monitor, Positions/ExitPlanner
--                     store.py, reconciliation.py, monitor.py and exit_planner.py of
--                     backend/app/positions
--   Discovery/Sieve, Discovery/Caps
--                     what is proved of the discovery of candidates
--   Committee/Severity, Committee/Challenges, Committee/Grounding, Committee/EvidenceIds,
--   Committee/Decisions, Committee/Scores, Committee/Ranges, Committee/Firsts, Committee/Rounds,
--   Committee/Verdicts
--                     what is proved of the committee
--   Risk/Gates, Risk/Factors, Risk/Bounds, Risk/Outcomes, Risk/LiveData
--                     what is proved of the risk layer
--   Execution/Quiet, Execution/Polls, Execution/Sends, Execution/AtMostOne, Execution/Authorization,
--   Execution/Planning, Execution/PaperMode, Execution/Remembered, Execution/Tracked,
--   Execution/Settled, Execution/NoDouble, Execution/Retry, Execution/Keys,
--   Execution/Statements, Execution/Rounds, Execution/LostResponse, Execution/RowLaws
--                     what is proved of the execution layer
--   Positions/Demands, Positions/Exits, Positions/KillSwitch, Positions/Dropped, Positions/Plans,
--   Positions/Roundtrip
--                     what is proved of the position layer
--   Discovery/Tests, Committee/Tests, Risk/Tests, Execution/Tests, Execution/RetryTests,
--   Execution/TrackingTests, Positions/Tests
--                     runs on concrete inputs
--
-- State. A method of the execution layer is a function from the world to a result and the world
-- that it leaves, so what was written before an exception stays written. A step may read the clock,
-- the market and the broker: their answers for one call are the record `Surroundings`. The SDK's
-- trading client is a parameter over an unknown state of the provider. A pass of the position monitor
-- is a function from the table of positions to its decisions and the table it leaves.
--
-- Parameters. The language model, `json.loads`, `str.strip` and pydantic's validation of an opinion
-- are the record `Backend`; Python's floats and Decimal(str(x)) are `Float` and `exact`; the text of
-- numbers is `Format`; Decimal.quantize is `quantized`; the broker's positions are `Provider` and the
-- market states `Markets`; the category of a symbol is `category_of`; datetime's conversions to text
-- and back are `Clock`.
--
-- Bounds. Times are whole seconds. The tracker's loop runs on fuel, one more round than the
-- timeout has seconds: the loop sleeps for two seconds between rounds by default, so its clock
-- passes the timeout before the fuel is spent. Decimals are an unknown type with the
-- laws of Decimal/Laws; precision and rounding are what those laws leave open.
--
-- Not modelled: texts for people and warnings, latencies and models' names, the threads and files
-- of SQLite, the prompts and the client of the language model, the service that submits and tracks
-- exits, the screening and scoring of candidates, the selection of instruments, options, the
-- indicators and the state builder of the market, memory, orchestration, the HTTP interface, the
-- scripts and the web application. They either call services and databases that the repository
-- only uses, or stand beside the chain from a candidate to an order and its exit that this library
-- follows.
pub mod Base
pub mod Decimal
pub mod Alpaca
pub mod Market
pub mod Discovery
pub mod Committee
pub mod Risk
pub mod Instruments
pub mod Execution
pub mod Positions
