-- ===== src/Lib.antt =====
-- The core of the trading backend: the simulation that backtests a trading robot, the wire protocol
-- and the market calendar of the price worker, the run that pays referral rewards out as pauses of a
-- subscription, the processing of payment webhooks with the revocation of a reward that a refund
-- brings, the policy of one trial for one device, and the store of the sessions of signed-in users.
--
-- The parts are separate services of one repository. The MT5 terminal sends the price worker frames of
-- candles; the worker asks the calendar which hours a market was open; the candles are what the
-- backtest engine runs over. The web service keeps sessions in Redis, applies the trial policy where a
-- user signs in, before the session is made, and has a webhook event activate a subscription, evaluate
-- a referral's reward or revoke it. The referral run is a job of the worker over tables that it shares
-- with the web service.
--
-- Backtest (backtest_engine/backtest_engine). Specs is broker_specs.py; Risk, Fills, Management with
--   EarlyExit, and Signal are simulation/risk.py, fills.py with pnl.py, management.py and the scan for
--   an entry in state.py. Trade is the loop of simulate_strategy over the bars of an open trade, one
--   round a bar, by recursion on the list of bars: the code's local variables are the fields of its
--   state, and an exit ends it. Outcome is what simulate_strategy does around that loop, sizing and
--   settlement. Candidates, Account and Portfolio are simulation/portfolio.py: the open positions and
--   the heap of exits of one account, the gates before an admission, and the walk over the entries in
--   their order.
-- Floats. Python's floats are a parameter: a record of the operations the code calls, with the laws of
--   the comparisons that IEEE 754 gives to every value. Floats/Scaled is an instance in whole
--   multiples of a hundred millionth, on which the runs are evaluated.
-- Wire (api-worker/app/mt5_wire.py). A frame is a list of bytes, and a stream is the bytes still to
--   come. binascii.crc32 and the layout of a double are parameters.
-- Calendar (api-worker/app/trading_calendar.py). A time is a number of seconds from the year 1, and a
--   day's weekday and hour are computed from it. date.isoformat is a parameter. The loop of
--   split_into_trading_windows has fuel: one round for each second of the range, and each round takes
--   the start at least one second further.
-- Referrals (api-worker/app/referrals/pause_resume.py). Machine has the rows and the changes that the
--   code makes to them, as a step relation between tables. World is what the code calls, the tables,
--   the payment provider and the clock: a record of operations on a state, each of which answers or
--   raises, with what is assumed of each, and with a relation of tables for what other workers do at
--   any time. Cycles, Seed, Pause, Resume and Run are the code's functions in a monad of that state
--   and of exceptions, as do blocks; a handler takes what its block raised. Guarantee relates the run
--   to the step relation, Soundness says what the relation keeps, and Deferral and Unasked are about a
--   round before a charge.
-- Sessions (api-web/app/authn/session_store.py). Redis is a record of the commands that the code sends
--   and of what each does to what can be read: the value of a session's key at a time, a user's set
--   and a user's index, sorted by the score and then by the id. Store is the operations. The clock is
--   read once in an operation and comes in as `now`. Each operation is one step, as if no other
--   client's commands came between its own. JSON is a parameter, with loads after dumps giving the
--   session back.
-- Payments (api-web/app/payments/webhook_handler.py, with constants.py, payment_providers/ and
--   ../config/retry_policies.py). Handler is process_claimed_webhook_event, from a claimed row to the
--   subscription, in a monad of exceptions and of a trace, the list of the calls made with their
--   answers. The database, Redis and the other services are functions from the trace so far to an
--   answer or an error, so they may answer anything, and differently each time. Status has the states
--   and what a provider's event stands for, Checks the comparison of currencies and amounts and the
--   retry policies; decimal.Decimal and the text functions are parameters, and the texts of errors are
--   left out. Safe is a logic of such computations, Grounds says what must have been read before a
--   payment is touched, Named which payment an event names, and Settled what a run leaves of the
--   event's row. The referral reward and the permissions of the user's sessions, which other modules
--   of the program see to, are calls.
-- Trials (api-web/app/authn/trial_policy.py, and the lines of auth_exchange in authn/routes.py that
--   apply it). Database is the requests to the tables device_trials and user_subscriptions and what
--   the policy relies on of them, as a record of operations and a record of laws; other workers may
--   add devices at any time. Policy is the code, Requests, Owner and Keeps what a request and a run
--   say of the device's row, and History the exchanges that a database has seen, those that failed
--   among them, as a step relation. Memory is the tables as functions, which keep the laws. The
--   requests are without their URLs, headers and timestamps.
-- Refunds (api-web/app/referrals/reward_revocation.py, with _cas_cycle_status of pause_resume.py
--   beside it). Rewards has the rows of referral_rewards, the changes of the table as a step relation,
--   those of other workers as a relation of the database, and the database as operations and laws.
--   Revocation is the code, with a call's error and the exception of the audit as values. Table and
--   Evolution say what a run does to the table, Sound what its answer says, and Memory is tables as
--   lists.
-- Common is the helpers they share: Boolean tests and lists on the native numbers, whole numbers, and
-- computations with a state and exceptions, with rules for what they leave.
-- A component's Tests modules hold concrete inputs and the theorems applied to them.
--
-- Not modelled: pandas indicators and candle patterns (they come in as values of a bar), reading of
-- files, SQL, HTTP and the environment; what a NaN makes math.floor raise; of session_store.py the
-- update of the permissions of all sessions, the listing, the pruning of indexes, the scan of all keys
-- (a parameter), the caches and the replay guard; the endpoint that queues a webhook, and the
-- janitors; the other services, which are prompts, scraping, routes and calls of stored procedures.
pub mod Common
pub mod Floats
pub mod Backtest
pub mod Wire
pub mod Calendar
pub mod Referrals
pub mod Sessions
pub mod Trials
pub mod Refunds
pub mod Payments
