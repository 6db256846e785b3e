-- ===== src/Lib.antt =====
-- Wheelbot: an options trading bot that sells puts and calls under a layer of risk controls. This
-- library models the controls, the order router, the simulated broker and the reconciler, and
-- proves what makes them correct.
--
-- The parts, and how they interact. The bot (scripts/run_bot.py) ticks through the strategies. On
-- every tick the kill switch may stop new orders for the day. For each strategy the entry gate
-- reads the runtime state that the drawdown breaker and the two floors have written; the strategy
-- then proposes orders, each of which the risk gate passes or refuses by its rules, among them the
-- earnings and macro blackouts. The router runs the gate and the news check, gives the order a
-- client id that is the same for the same proposal of a day, submits it to a broker, again while
-- the broker is unavailable, and writes the tables of orders and positions. After the strategy's
-- iteration the three monitors run again and write the runtime state that the next tick reads.
--
-- Which file models which part:
--   Common       the shared names; integers (Common.Int), fractions (Common.Ratio) and Python's
--                dict (Common.Dict)
--   Models       core/models.py, core/strategies.py and the proposals of strategies/wheel.py and
--                strategies/spreads.py, as records and enumerations
--   Store        db/repo.py: the runtime state of strategies (Store.Runtime), the alert rate limits
--                (Store.Alerts), the closed cycles (Store.Cycles), the daily state (Store.Daily),
--                the orders (Store.Orders) and the positions (Store.Positions), and tables whose
--                rows are named by their number (Store.Rows); World is what a monitor reads and
--                writes
--   Drawdown     risk/auto_disable.py: current_state, check_and_apply and the transition in it
--   Floors       risk/win_rate_floor.py (Floors.WinRate) and risk/expectancy_floor.py
--                (Floors.Expectancy), which share the pause columns
--   Monitors     scripts/run_bot.py: run_monitors is the end of a strategy's iteration, entry_gate
--                the gate on new entries at its start
--   KillSwitch   execution/kill_switch.py: prime_session and check
--   Earnings     data/earnings.py: in_blackout and earnings_overlaps_hold
--   Macro        data/macro_calendar.py: is_blackout, coverage and the calendar's alerts
--   RiskGate     risk/limits.py: one function for each rule, in RiskGate.Capital (the account),
--                RiskGate.Concurrent (open positions), RiskGate.Events (dates) and RiskGate.Screens
--                (market and contract); RiskGate.evaluate runs them in the code's order
--   Broker       core/broker.py: the operations of a broker that the router calls, as a record
--                over the broker's states, its errors, and the contract on client ids
--   PaperBroker  platforms/paper_broker.py: orders in PaperBroker, fills and assignments in
--                PaperBroker.Fills, the reports in PaperBroker.Reads; PaperBroker.Interface makes
--                it a broker of the interface
--   MarketHours  execution/market_hours.py
--   Router       execution/router.py: route is place and place_multi_leg, in the code's order:
--                the checks (Router.Admit), the order that is there already (Router.Stale), the
--                submission with its retries (Router.Submit, Router.Prices) and the rows that are
--                written (Router.Persist); Router.Defs has the configuration, the results and the
--                ids. The other modules under Router are proofs
--   Spreads      strategies/spreads.py: propose_close_for_symbol in Spreads, on the rows that the
--                router and the gate use, and propose_for_symbol in Spreads.Opens;
--                Spreads.Selectors is strategies/spread_selector.py and call_spread_selector.py,
--                with the side as an argument. The other modules under Spreads are proofs
--   Reconciler   execution/reconciler.py: reconcile_once processes the broker's orders, compares
--                every position with the broker's and audits the cycles. Reconciler.Fills and
--                Reconciler.Cancels are the ends of an order, Reconciler.Diff and Reconciler.Shapes
--                what the positions show, Reconciler.Parity the audit; Reconciler.Cycles has the
--                cycles and their profit, Reconciler.States the writes of a state and of its log.
--                The other modules under Reconciler are proofs
--   Chain        data/chain.py, and in Chain.Selectors strategies/csp_selector.py and
--                strategies/cc_selector.py
-- A function has its source's name without a leading underscore. State is passed in and out: a
-- table keyed by a text is a function or an association list, an exception is a value (Ended,
-- Checked, Result). The Tests modules run the definitions on concrete inputs.
--
-- What the model takes as it is. A dollar amount is an exact integer in one small unit and a
-- percentage or a quotient an exact fraction, compared by cross multiplication; the rounding of
-- the code's floats is outside the model. A size multiplier is counted in halves (the breaker) or
-- quarters (with the regime veto). A timestamp is a number of seconds and a day a day's number. A
-- ticker symbol is held in upper case, and an event type too. A configuration key that is absent
-- is `none`; an explicit null is not told apart from it, and a configured number is of its type. A
-- reason is the list of the parts of its text. Log checkpoints, the texts of rule results and the
-- failure of a notification are left out. The order of rows that a query leaves open is the
-- model's own. Arguments stand for what other code and services answer: the broker's equity, the
-- next earnings date, the existence of the stop file, the ids that are drawn at random, the chain
-- and its quotes, the rank of implied volatility, the weekday and the second of the day in New
-- York. So does the computation of a missing delta, which is floating point (data/greeks.py). The
-- news checker asks a language model on every call, so its answer belongs to the call (Moment).
-- Calls do not interleave within one operation, as the code runs in one task.
--
-- In the router and the spreads the unit of money is the cent, that of a mid and of a net debit the
-- half cent, and that of a pause the millisecond. The hash of a client id, the decimal text of a
-- second, and the side to which a float that lies midway between two ticks is rounded are
-- arguments. A call reads one clock once. A row of a table is named by the columns that the schema
-- makes unique, and raw_request keeps the keys with numbers that the bot reads again.
--
-- In the reconciler a table's row is named by its number, counted from zero, and a test of a number
-- for truth is the test that it is there. A reason keeps the words of its text without the ids and
-- numbers in it. An exception that a handler raises is left out, and so is the flag that the code
-- then raises.
--
-- The retry loop of the router recurs on the number of attempts that are left, which the
-- configuration sets; every other recursion is over a list.
--
-- What is not modelled: the scan for rolls of the reconciler and the roll advisor, the event loop
-- (execution/loop.py), the recheck of earnings for open positions (risk/earnings_recheck.py), the
-- regime classifier, the strategies' other proposers (strategies/), the live brokers (platforms/),
-- the greeks, the rank of implied volatility, watchlists, notifications and checkpoints, the
-- operator's scripts, the language model's part (intelligence/), the backtests, the dashboard and
-- the operator's server. They are reports and drivers over what is modelled, calls of services, or
-- floating point.
pub mod Common
pub mod Models
pub mod Store
pub mod Drawdown
pub mod Floors
pub mod Monitors
pub mod KillSwitch
pub mod Earnings
pub mod Macro
pub mod RiskGate
pub mod Broker
pub mod MarketHours
pub mod Router
pub mod Spreads
pub mod Reconciler
pub mod PaperBroker
pub mod Chain
