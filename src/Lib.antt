-- ===== src/Lib.antt =====
-- A verification library for wliq, an automated trader of residual exhaustion.
--
-- The program. Market data is turned into a feature vector for each symbol. The strategy governor
-- (src/wliq/strategy/governor.py), which asks the data-health monitor (src/wliq/broker/health.py),
-- says whether trading is permitted, and the signal state machine (src/wliq/strategy/fsm.py) or the
-- scoring (src/wliq/strategy/exhaustion.py) decides on a signal. Two risk managers
-- (src/wliq/execution/risk.py and risk2.py) gate and size it, the execution policy
-- (src/wliq/execution/adaptive.py) prices it, and the order manager
-- (src/wliq/execution/order_manager.py) owns the order from then on. Fills go to the position manager
-- (src/wliq/execution/positions.py), closed trades to the risk managers and to the ledger
-- (src/wliq/execution/ledger.py). The session engine (src/wliq/runtime.py) connects them.
--
-- The files. A module holds the definitions of one source file, in the source's names, and its
-- children the theorems; `Tests` has concrete runs and `Samples` their data.
--   Prelude: Boolean tests, conditionals, lists and dictionaries as association lists.
--   Float: the numbers, as an interface with the laws that theorems assume, one record for those of
--     an ordered arithmetic (IsOrdered) and one for exact addition (IsExact). Order derives more laws.
--     Fixed shows that both can be met, by decimal fixed-point numbers. The definitions use no law,
--     so they are the source's for any arithmetic; a theorem that needs laws takes them as arguments.
--   Models: src/wliq/core/models.py. Config: src/wliq/core/config.py.
--   Orders: the order manager. Methods has the operations on an order; Calls makes them one type of
--     call and `run` a sequence of these. Evolution, Steps and Creation say what an operation does to
--     an order and to the table, Invariant and Runs what holds in every run.
--   Fsm: the signal state machine, the tick split by the state of the track.
--   Risk, Portfolio, Ledger: the two risk managers and the risk ledger.
--     Ledger.PositionLog is the log of position fills, which Refinement and Recovery compare with the
--     live positions, and Ledger.OpenOrders the orders that a restart finds open.
--   LogFile: the files of JSON lines that the ledgers and the journal append to. A line that is no JSON
--     is `none`; a file whose last write a crash has torn has a last line without its newline, which
--     spoils the row that is written next.
--   Positions: the position manager. Session: the session engine's treatment of venue events;
--     Evolution says what they leave of the orders.
--   Runtime: the rest of the session engine. Submit has the submission of entries and exits, Loop the
--     recovery, the periodic work, the handlers and the decision core, Events a session as a sequence
--     of these. Traversal says when a relation of the engine before and after is kept by every handler;
--     Steps, Invariant, Decisions and Reservations use it for the order manager's invariant, Calm and
--     KillSwitch for what the kill switch forbids, Exits for the exits. Recovery is a restart.
--   Venue: the simulated venue (src/wliq/execution/venue_paper.py). PaperBroker: the older one
--     (src/wliq/execution/paper.py).
--   Journal: the order journal (src/wliq/core/journal.py), its ids as texts. Ids reads an id back,
--     Counts and Reading follow the counters and the rows, Freshness is about files whose writes were
--     whole and Torn about a torn one. Reconciler: the local
--     positions against the broker's (src/wliq/execution/reconciler.py). Clock: the simulated clock.
--   Health, Governor, Scoring, Adaptive: the monitor, the governor, the scoring and the policy.
--   Regime: the regime rules and the anomaly detector (src/wliq/ml/regime.py).
--   Analytics: the mids after a fill (src/wliq/analytics/execution.py).
--
-- Conventions. Times are whole microseconds, the resolution of Python's datetime; symbols and ids are
-- numbers, since they are only compared. An exception is a value of `Result`, together with the state
-- that the code leaves behind. A call of `on_terminal` is an order appended to `ended`, which the
-- session engine hands to its callback. The clock's time, random draws and float powers are arguments,
-- and so are the answers of the parts that are not modelled: the feature vector, the anomaly flags, the
-- data quality's verdict on a duplicate and the broker's reads. Loops are structural recursion; two
-- run on fuel: the digits of a number, for which the number itself is enough, and the binary search of
-- the analytics, for which the length of the list is enough.
--
-- Not modelled: the feature engine, the model fitting and the research tools, which are numerical code on
-- third-party libraries, the report on execution quality, the recorder, the OUFS and logging files, the command
-- line, the dashboard and the broker's adapter, which observe or are input and output. The package
-- src/wliq/data, which the engine imports, is not in the repository. Divisions by zero and conversions of
-- infinite or undefined floats, at which Python raises, are total functions of the model; so the sizing
-- of a signal with a reference price of zero is outside it.
pub mod Prelude
pub mod Float
pub mod Models
pub mod Config
pub mod Orders
pub mod Fsm
pub mod Risk
pub mod Runtime
pub mod Regime
pub mod Analytics
pub mod Ledger
pub mod LogFile
pub mod Portfolio
pub mod Positions
pub mod Session
pub mod Health
pub mod Governor
pub mod Scoring
pub mod Adaptive
pub mod Venue
pub mod Reconciler
pub mod Clock
pub mod PaperBroker
pub mod Journal
