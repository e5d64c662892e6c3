-- ===== src/Lib.antt =====
-- divap-trader: verification of the trading core.
--
-- The program receives trading signals and turns them into orders. Signals of the OTC channel go to the
-- executor of src/otc, which places a binary option at IQ Option and, after a loss, up to a few protections
-- with a higher stake (a martingale sequence); the stake and the daily stops come from a snapshot of the
-- balance that is taken once a day. Signals of the DIVAP scanner are scored against the market context
-- (src/context) and pass a gate (src/execution/gate.py) under the rules of a trading profile (src/profiles)
-- before an order goes to Binance; a monitor then watches the open positions. Both keep their trades in one table (src/data/repositories/trade_repo.py).
--
-- Which file models which part:
--   Data/Trades      the rows of the table and the statements on them, as functions on a list of rows;
--                    Ledger is the map that they stand for, and Refinement proves it
--   Bankroll         src/bankroll/execution_context.py with bankroll_repo.py: the settings row with the turn
--                    of the month and the goal, the execution profile that they select and, in Goal, the mark of
--                    a reached goal (src/bankroll/service.py)
--   Otc/Models       the records of src/otc/models.py and the settings row
--   Otc/Martingale   src/otc/martingale.py: stakes of the levels, the reason of a sequence
--   Otc/Stake        src/otc/stake.py: risk profiles, the stake of the day, its limits
--   Otc/Session      src/otc/daily_session.py with otc_daily_session_repo.py
--   Otc/Guard        src/otc/guard.py (decide_stop, evaluate_otc_stop) and src/otc/stop_alert.py
--   Otc/Executor     src/otc/executor.py with open_binary and place_binary of src/otc/broker.py. Ports holds
--                    what they call outside; Leg is _execute_leg, Sequence is try_execute and
--                    _sequence_result; Legs, Gates, Totals and Outcome prove
--   Otc/Schedule     src/otc/schedule.py: the times of legs, the wait for them on a Clock, the serialized signal
--   Otc/Dispatch     src/otc/signal_dispatch.py: held back, queued or executed at once
--   Otc/Settlement   wait_settlement of src/otc/broker.py and the polls that it makes
--   Otc/Simulation   src/otc/simulation.py: cycles of past legs, strategies, summaries
--   Detection        src/detection and src/indicators: patterns, levels, divergence and the scan
--   Market           candles, DIVAP signals, the market context as a record
--   Context          src/context/scoring.py
--   Profiles         src/profiles/exit_policy.py, contrarian.py and the records of models.py
--   Execution        src/execution/gate.py, risk_manager.py, risk_policy.py; in Trader, trade_executor.py:
--                    Broker holds what it calls, a Step carries the bankroll and the table through each call
--                    and ends in a value or an exception, and a Triple says what a step leaves; in Monitor,
--                    position_monitor.py: Exchange holds what it calls, with steps of its own
--   Tasso            src/tasso: executor.py, trade_update.py, trade_close.py and signal_dispatch.py, a second
--                    channel of signals over the trade executor
--   Scanning         src/core/scan_plan.py and scan_state.py, with the passes of src/alerts/scheduler.py over
--                    the plans; ScanPorts holds the clock and run_divap_scan
--   Decimals, Base   decimal.Decimal, signed integers, lists and texts
--   Witnesses        the theorems at concrete inputs
--
-- How code becomes a definition. Decimals are exact: a coefficient and a number of digits after the point,
-- with the roundings of quantize; a quotient is rounded to 28 digits like that of the default context, while
-- sums and products are not (the code's amounts stay far below 28 digits). The state of the executor is a
-- world of the outside, the sessions and alerts, and the table; every operation takes it and returns it.
-- An exception that the code catches is a None or a branch of its own; one that it lets through is named
-- where it is modelled (an index out of range, a payoff that is not positive, the TypeError of the
-- Anti-DIVAP rule). Texts that code compares in lower case are taken in lower case.
--
-- Bounds and fuel. The protection loop runs for the number of levels of its range. `digits` and `show` recurse
-- on a number that is itself at least the number of digits. The loops that wait for a time run on fuel, and a
-- round for each 5 ms up to the time is enough, as every round sleeps that long at least. Everything else is
-- structural.
--
-- Not modelled: the connections to IQ Option, Binance, Redis, Telegram and PostgreSQL, and the clock (they
-- stand behind Ports and arguments); an exception of a call in the executor, which ends the run; the rounding of
-- numeric columns; parsers by regular expressions; the RSI, which a library
-- computes; the floats of prices in the divergence, which are taken exactly; dashboards, messages and statistics.
pub mod Base
pub mod Decimals
pub mod Data
pub mod Bankroll
pub mod Otc
pub mod Market
pub mod Context
pub mod Profiles
pub mod Detection
pub mod Execution
pub mod Scanning
pub mod Tasso
mod Witnesses
