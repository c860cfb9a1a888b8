-- ===== src/Lib.antt =====
-- The trading core of the bot, modelled function by function, with what makes it safe to run: the risk
-- manager between a signal and an order, the execution that turns an approved decision into a protected
-- position, and the halts and claims that stop it.
--
-- A candidate (Ranking.Candidate: src/ranking/candidate.py) is scored by Ranking.Setup
-- (src/ranking/setup_quality.py), whose hard blockers no score outweighs, ranked against the others of its
-- cycle by Ranking.Engine (src/ranking/engine.py) and judged by the risk manager. Risk.Envelope
-- is src/risk/envelope.py, Risk.Config src/risk/config.py, Risk.Breakers src/risk/breakers.py and
-- Risk.Portfolio src/risk/portfolio.py. Risk.Manager is src/risk/manager.py: RiskManager.evaluate is one
-- function in the source and a chain of steps here, in the source's order (Decide.admit, Sizing.base_size,
-- Sizing.leverage_cap, Sizing.heat_cap, Sizing.beta_cap, Decide.quantise, Decide.confirm), composed by
-- Decide.evaluate_flow. Risk.State is the persisted halt of src/risk/state.py.
--
-- An approved decision goes to the execution engine. Execution.Config is src/execution/config.py,
-- Execution.Ownership src/execution/ownership.py, Execution.Order src/execution/order.py (OrderBuilder.build
-- is Order.Build), Execution.Venue the simulated venue of src/execution/venue.py, Execution.Engine
-- src/execution/engine.py and Execution.Reconciliation src/execution/reconciliation.py. The engine takes its
-- venue as a record (Engine.Venue), which Engine.Simulated fills with the simulated venue, so that builder,
-- venue and engine are also joined. Exchange.Metadata holds the contract specs of src/exchange/metadata.py,
-- and Exchange.Tradable its review of a spec and what blocks a symbol.
-- Brackets is the exit geometry of src/brackets.py, which backtest and paper trading share.
--
-- Paper is the paper engine, which drives all of these over any venue (Paper.Exits.PaperVenue). Paper.Session
-- holds the records of src/paper/session.py, the rest is src/paper/engine.py: Paper.Engine the state of
-- PaperTradingEngine with its loss windows and what it persists in the risk state, Paper.Funding
-- _charge_open_funding with the payment of src/backtest/costs.py, Paper.Exits and Paper.Booking the exits,
-- Paper.Input the arguments and what the calls outside of one decision return, Paper.Entry the trade that a
-- placed order becomes, and Paper.Process _process_one as a chain (check_halt, loss_view, assess, judge,
-- enter, conclude) and process_candidates, Paper.Watch the exercises of the kill switch and of the
-- reconciliation. A run of the engine (Paper.Lockstep.Running.Run) is a sequence of
-- batches, bars and exits that the exchange reports.
--
-- KillSwitch is src/killswitch.py, whose answer is the argument `killed` of the breakers and of the engine.
-- Live.Guard is src/live/guard.py, which keeps its budget in the risk state, and Live.AccountLock
-- src/live/account_lock.py. Live.DemoGuard is src/live/demo_guard.py (DemoReadinessGuard.evaluate), which
-- asks the kill switch, the ownership policy, the envelope's ceilings, the metadata and the startup
-- reconciliation.
--
-- Adaptation is the online learner: Adaptation.ActionSpace is src/adaptation/action_space.py (validate),
-- Adaptation.EnvelopeGuard src/adaptation/envelope_guard.py (enforce), Adaptation.Policy the interface of
-- src/adaptation/policy_base.py, Adaptation.Controller src/adaptation/controller.py, where
-- LearnerController.run is the chain judge, after_validation, after_guard, conclude, and Adaptation.Rollback
-- src/adaptation/rollback.py, whose check freezes the controller.
--
-- Gates.Runner is src/gates/runner.py with the results of src/gates/result.py: _evaluate is Runner.evaluate,
-- over the cache and the rows written so far (Runner.Progress). Jobs.Routing is src/jobs/routing.py,
-- Jobs.Queue src/jobs/queue.py, Jobs.Worker the steps of src/jobs/worker.py on the same store, and
-- Jobs.Scheduler src/scheduler.py, which enqueues through the queue. An interleaving of workers is a sequence of such steps:
-- a claim of one, a recovery by another, the read and, later, the commit of the end of the first
-- (Jobs.Worker.Reaped.Steps). Data.Gaps is src/data/gaps.py with
-- the grid of src/data/schema.py.
--
-- State is passed explicitly: an operation of a class takes the object as a record and gives it back. A
-- body with early returns is a value of Base.Flow, a call that may raise gives a Base.Result, and the texts
-- of reasons are constructors that carry the numbers shown. A dict is an association list with each key at
-- its first place (Base.Dict).
--
-- Floats are an abstract type (Base.Float.Float) with the operations that the code calls. Theorems that need
-- more take the laws IsOrdered and IsMonotone, which hold of IEEE 754 with NaN: no order test with NaN is
-- true. Base.Nano, exact multiples of 10^-9 with a NaN, satisfies them and runs the tests. Rounding is not
-- modelled further, so what is stated of a product or a quotient is stated of the computed float.
--
-- What is not under src is a parameter: clocks, the file system and Redis are operations of an environment
-- (KillSwitch.Environment, Live.AccountLock.LockStore with the documented behaviour IsLockStore), a write of
-- the risk state is given by whether it succeeds (Paper.Input.Moment for a decision of the paper engine), and the random token of a session is a field. The learner's policy is a
-- record of its calls (Adaptation.Policy.Policy), each of which may raise; the checks of the gates, the
-- outcome of a job's handler and the ids and fencing tokens of jobs are arguments.
--
-- Three functions take fuel. The decimal digits of a number (Execution.Ownership.pad6) get the number
-- itself, which is enough since every digit divides it by ten. The range of a grid (Data.Gaps.range) gets
-- the distance from start to end, which is enough for a positive step. The recursion of the gate runner
-- (Gates.Runner.evaluate, Gates.Runner.visit) gets the interpreter's recursion limit, and running out of it
-- raises, as it does there. Every other loop is structural.
--
-- Not modelled: loading of YAML and settings, logging and the texts of reports, the live venue and the
-- asynchronous loops, the backtest engine, the lake replay, what the paper engine only reports
-- (explanations, estimates of a decision, breakdowns of a session), the gaps of
-- funding settlements, storage and download of data, features, strategies, machine learning, the learner's
-- snapshots and statistics, the checks of the single gates, the handlers of the jobs, the web and command
-- line services, and the database, whose rows
-- are values here.
pub mod Base
pub mod Brackets
pub mod Ranking
pub mod Exchange
pub mod Risk
pub mod Execution
pub mod KillSwitch
pub mod Live
pub mod Adaptation
pub mod Gates
pub mod Jobs
pub mod Data
mod Tests
pub mod Paper
