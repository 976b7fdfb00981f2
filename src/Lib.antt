-- ===== src/Lib.antt =====
-- FinSkillOS, a portfolio risk assistant: its risk firewall, regime engine, goal tracker, strategy
-- simulation, trade statistics and worker queue.
--
-- A guard input describes an account. The risk service runs a ladder of nine skills over it: each skill derives
-- features, selects the first rule of its ladder that fires, and builds a result whose texts pass a
-- scan for forbidden wording. The results are read back as guard results, a report takes the worst
-- status and level of them, and the alerts table is brought in line with the results that fire. The
-- older guards compute eight of the nine results by plain code. The regime engine classifies the market
-- from votes and scores; its regime is one of the inputs of the guards, as is the goal's progress.
--
-- Files, and the code they are about:
--   Decimal, Decimal/*   the decimal numbers of Python under the default context: comparison,
--                        arithmetic with 28 digits half-even, quantize, formatting and parsing
--   Dict, Dict/*         dicts with text keys, in insertion order
--   Wording, Wording/*   finskillos/guards/base.py: find_forbidden_term, find_coercive_term, the idioms
--                        and the patterns, with a matcher for the regular expressions they use
--   Guards/Base          finskillos/guards/base.py: statuses, levels, GuardInput, GuardResult, report
--   Guards/*             finskillos/guards/*_guard.py: evaluate of each guard, one module each; the sums
--                        per sector are Guards/Sectors
--   Guards/Bands, Guards/Base/Ranks   how verdicts depend on the numbers, and the worst of a list
--   Skills/Base          finskillos/skills/base.py: contexts, rules, specs, band_rule
--   Skills/Runner        finskillos/skills/runner.py and safety.py: run_skill, the registry, run_all
--   Skills/*             finskillos/skills/library/*_skill.py: the nine risk skills, one module each
--   Skills/RiskRegistry  finskillos/skills/risk_registry.py: the shared context and the guard names
--   Skills/Parity/*      each skill against the guard it replaces
--   Firewall/Ladder      the registry and finskillos/services/risk_guard_service.py: _run_skill_ladder,
--                        the report of evaluate_with_audit
--   Firewall/Alerts, Firewall/Alerts/*   _persist_alerts and finskillos/db/repositories/alert_repo.py
--   Regime/*             finskillos/regime/: Rules, Scores and Classify are the engine; Bounds is
--                        about the scores, Confidence about the confidence, Priority about the rungs
--   Goal, Goal/Progress  finskillos/goal/goal_tracker.py: calculate_goal_status, goal_mode_for
--   Trades, Trades/Runs  finskillos/services/trade_analytics_service.py: _streaks
--   Trades/Fifo, Trades/Fifo/*   the same file: _fifo_realized. Matching and Passes are one match of a
--                        trade with a lot, Balance the loop over the lots, Books and Totals the books
--                        after each trade and after all, Summary what is returned
--   Simulation/Conditions   finskillos/simulation/conditions.py
--   Simulation/Parser, Simulation/Parser/*   finskillos/simulation/spec_json.py; Roundtrip has a printer
--                        of conditions, Sound what the parser lets through
--   Simulation/Features, State, Engine, WalkForward   finskillos/simulation/engine.py: build_features, the
--                        records, simulate and walk_forward; Engine/Steps is a pass of the loop as a
--                        relation, Engine/Lookahead, Engine/Replays, Features/Total and
--                        WalkForward/Parts are their properties
--   Simulation/Portfolio, Simulation/Portfolio/*   the same file: synthesize_portfolio; Dates is the
--                        sorting of its dates, Curve what it returns
--   Simulation/Metrics   finskillos/simulation/metrics.py
--   Jobs, Jobs/*         finskillos/db/repositories/system_ops_repo.py: WorkerJobRepository, and drain_queue
--                        of scripts/refresh_worker.py. Rows has the keys of the table, Sessions the steps of
--                        sessions that share it, Steps and Contention what these keep, Counts and
--                        Drain what draining by one worker comes to
--   Samples, Tests       concrete data, runs and instances of the theorems
--
-- An exception is a value of Error in a Result. An account id is a number (a UUID has 128 bits), a
-- text is scanned as its code points, a row id is drawn from a counter, and the clock is an argument.
-- Python's Unicode tables (which characters are letters or blanks, lower case, case classes) and
-- the conversion of a decimal to a float are parameters. Decimals are finite: the database holds no
-- NaN and no infinity. Every recursion is structural or on a well-founded order, but for the loop
-- of _fifo_realized, which has fuel: one more than the open lots, since each pass of it takes a lot from
-- the queue or uses the trade up. The floats of the simulation are a record of operations of which
-- nothing is assumed, as are the digits, strip and upper of Python's texts. A
-- refresh cycle is a function of the type and payload of its job. The query and the insert of enqueue
-- are two steps of a session, since nothing locks the table between them; a claim is one step, since it
-- locks its row (FOR UPDATE SKIP LOCKED on postgres), and takes a row that no other session has locked.
-- The audit rows of a run share one reading of the clock.
--
-- Not modelled: the queries that build a guard input, the narrative texts of the regime, the
-- closing statistics of trades, the list of strategies, the ordering of listings
-- for display, and the other parts of the program (data sources, brokerage, language models, pages, migrations).
pub mod Prelude
pub mod Decimal
pub mod Dict
pub mod Wording
pub mod Guards
pub mod Skills
pub mod Firewall
pub mod Regime
pub mod Goal
pub mod Trades
pub mod Simulation
pub mod Jobs
pub mod Samples
pub mod Tests
