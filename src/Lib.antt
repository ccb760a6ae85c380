-- ===== src/Lib.antt =====
-- A verification library for multi-desk-trading, a research platform in which trading desks emit
-- forecasts that a controller or a family synthesiser turns into sized decisions. It models the
-- parts that decide, as far as they are pure or keep a small state, and states theorems on them.
-- Paths below are from the root of the repository.
--
-- Roll (v2/s4_0/contract_roll.py). A date is its ordinal. Roll.Calendar has ExchangeCalendar
-- with prior_business_day, business_days_before and business_days_until; the while loops are
-- recursions on the day and on the number of days, so no fuel is needed, and stepping below
-- date.min raises as in Python. Roll.Dates has the date constructor and ordinals, Roll.Contract
-- the policy, the contract, its symbol and its last trade date, Roll.Status roll_status, and
-- Roll.Select select_front_next, with Python's stable sort and the dictionary of statuses as its
-- list of assignments. as_dict and receipt, which only format, are left out.
--
-- Ladder (v2/execution/degradation.py, with DegradationState of v2/contracts/decision_v2.py).
-- step is modelled with every check of its own and of the constructors that it calls, as a
-- result that is a state or the error raised. run_ticks is a sequence of steps. Ladder.Rungs is
-- about one step, and Ladder.Outage about a decision and the silent ticks after it. A tick
-- beyond the TTL ends at HARD_FAIL, as step does and as docs/v2/b6b_paper_live_spec.md section
-- 12 accepts; docs/v2/v2_decision_contract.md section 4 and the table at the top of
-- v2/execution/degradation.py have AGED with decay there.
--
-- Feeds. Feeds.Detector is update_page_hinkley of research_loop/feed_latency_monitor.py,
-- Feeds.Latency the table feed_latency_state of persistence/db.py as a list of rows with unique
-- feed names, and the functions that load, update, store and reset a detector. Feeds.Incidents
-- is the table feed_incidents of persistence/db.py, a list of rows in the order of insertion,
-- with the identifiers that uuid4 draws as arguments; Feeds.Incidents.Reachable has the tables
-- that sequences of calls lead to. Feeds.Reliability has the rules of
-- research_loop/feed_reliability.py that choose the feeds to retire and to reinstate, with the
-- range of Python's times checked where a window's start is computed.
--
-- KillSwitch. KillSwitch.Reader is v2/runtime/kill_switch.py and KillSwitch.Control, with
-- KillSwitch.Control.Commands, is v2/runtime/killctl.py: the two files of the runtime's root are
-- the state, and each command returns the files that it leaves or the error raised. A document
-- has the shape that killctl writes, and what YAML and JSON write is read back as it was.
-- str.strip, str.lower and the ISO format of a time are arguments, with the law that the words
-- for the states stay as they are.
--
-- Fills (v2/s4_0/mbp10_fill.py, with the books of v2/s4_0/market_data.py). simulate_mbp10_fill
-- walks the levels of a book by recursion on it, so no fuel is needed. Fills.Slices is about
-- each slice taken, Fills.Books about the order of their prices. Python's sum is an argument.
-- The report of a drill, its totals and its hash are not modelled.
--
-- Ledger (v2/execution/simulator.py). The table family_decisions is a list of rows and
-- record_decision a function on it. SHA-256, JSON and the clock are arguments; a decision is its
-- family, its time and its canonical JSON. Ledger.Executions has the table execution_ledger with
-- record_tick, latest and the counts; the columns that a row only carries are a type, and the
-- hash of a record is an argument. latest_decision and all_ticks, which read JSON and whole
-- columns back, are not modelled.
--
-- Controller (controller/decision.py). decide is a function of the forecasts and of the rows
-- that it reads of the database; numpy's clip, SHA-256 and the new identifier are arguments. Of
-- the provenance only the hash of the inputs is kept. Controller.Keys is about the forecast that
-- a row finds, Controller.Contributions about those that a decision rests on.
--
-- Scheduler (scheduler/calendar.py). firings_between and advance_to are functions of the
-- calendar's events and of the next scheduled time after another, which croniter computes and
-- which is an argument. Scheduler.Cron has what is relied on of it: the next time is later, and
-- it stays the next one until it comes. The while loop runs on rounds, one more than the
-- microseconds from start to end, which suffice since each round goes forward. Scheduler.Checks
-- has check_ingestion_misses and check_incident_recoveries, the latter on the tables of
-- Feeds.Incidents and Feeds.Latency; the identifiers of events and their publishing on a bus are
-- left out.
--
-- Dispatcher (research_loop/dispatcher.py, with ResearchLoopEvent of contracts/v1.py). The state
-- is the table research_loop_events, a list of rows, with all else that the database holds; a
-- handler is a function on that state which returns or raises, and what it wrote stays written.
-- How DuckDB orders texts is an argument that is taken to be a total order. Dispatcher.Order is
-- about the order of the events, Dispatcher.Marks about completing them, Dispatcher.Run about
-- how far a run gets, and Dispatcher.Pending about what is pending.
--
-- Contracts (v2/contracts/decision_unit.py, target_variables.py and forecast_v2.py) has the
-- units, the targets and the fields of a forecast that the others read.
--
-- Synthesiser (v2/synthesiser/compat.py and linear_pool.py). An exception is a constructor for
-- its class. Synthesiser.Pooling has the stages of synthesise_family; the pool of quantile
-- vectors, which computes with numpy, and Python's sum are arguments. Synthesiser.Compat is
-- about the forecasts that are accepted, Synthesiser.Cascade about what is returned.
--
-- Sizing (v2/execution/control_law.py and adapter.py). The width of the normal quantiles, which
-- scipy gives, and the conversions between floats and integers are arguments. Sizing.Bounds has
-- the ranges.
--
-- PaperLive (v2/paper_live/loop.py, with DecisionV2 of v2/contracts/decision_v2.py in
-- Contracts.Decisions). run_decision_tick composes the synthesiser, the control law, the ladder
-- and the adapter into a decision and its two ledger records; an exception of a part is one of
-- the tick. PaperLive.Ticks has the tick, PaperLive.Steps the calls that it makes, and
-- PaperLive.Outcomes how the decision agrees with the exposure. The totals of the cost reports,
-- which numpy computes, are arguments, and the reason of a decision is a constructor for its
-- text.
--
-- Common has what the parts share. Common.Float is Python's float: a type with operations as an
-- argument, and a record of laws of IEEE 754 binary64, which hold with infinities and NaN;
-- Common.Float.Fixed is a concrete instance of three decimals at which the laws are proved and
-- the witnesses run. Common.Time has datetimes as microseconds, aware or naive. Common.Results
-- has calls that may raise, Common.Dict dictionaries as lists of entries.
pub mod Common
pub mod Contracts
pub mod Controller
pub mod Dispatcher
pub mod Feeds
pub mod Fills
pub mod KillSwitch
pub mod Ladder
pub mod Ledger
pub mod PaperLive
pub mod Roll
pub mod Scheduler
pub mod Sizing
pub mod Synthesiser
