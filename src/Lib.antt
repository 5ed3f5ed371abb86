-- ===== src/Lib.antt =====
-- hl-carry-bot: a bot that holds a spot position against a perpetual short on Hyperliquid and earns
-- the funding payments. This library models the decisions of the bot and the orders that follow from
-- them, in Go under internal/.
--
-- The parts and how they interact. Every few seconds `Run` of internal/app/app.go calls `tick`. A tick
-- reads the market data (internal/market) and the account (internal/account), settles the state of the
-- strategy (internal/strategy), checks that the data is fresh and the snapshot within the risk limits,
-- and then may enter a position, exit it or hedge its delta. These place orders by the executor
-- (internal/exec), which places each client order id once; the executor calls the exchange client
-- (internal/hl/exchange), which signs each request with a nonce of its own.
--
-- Which file models what:
--   Prelude and its children: Boolean tests, integers, floats, results, maps with string keys, text and
--     numbers as text.
--   Json: what encoding/json makes of a message. Account: internal/account. Account/Parse reads values of
--     a message, Account/Fills, Account/Orders, Account/Balances and Account/Funding its parts;
--     Account/Updates has the record `Account` and the handlers of messages, Account/Requests
--     `Reconcile` and the other requests. Theorems: Account/Fills/Bounds, Once and Newest,
--     Account/Orders/Reports, Account/Updates/Panics, Account/Requests/Refresh.
--   Market/Funding: the forecasts of the next funding, internal/market/funding.go. Theorems:
--     Market/Funding/Next. A tick still takes its forecast from `Services`.
--   Market/Candles, Market/Feed: what internal/market makes of messages with candles and mid prices.
--   Config: the records of internal/config/config.go. Config/Load has the defaults and what is read from
--     the environment, Config/Validate the checks and `load`. Theorems: Config/Validate/Ranges.
--   Strategy: internal/strategy. `apply` is `StateMachine.Apply`; `check_risk`, `check_connectivity`
--     and `net_expected_carry_usd` are the functions of these names. Theorems: Strategy/Machine,
--     Strategy/Checks.
--   Nonce: `InitNonceStore`, `nextNonce` and `persistNonce` of internal/hl/exchange/client.go, with
--     goroutines as interleaved atomic moves. Theorems: Nonce/Race, Nonce/Restart.
--   Exec: internal/exec/executor.go, one call at a time; Exec/Callers: overlapping calls of `PlaceOrder`.
--     Theorems: Exec/Retry, Exec/Idempotent, Exec/Shared, Exec/Served.
--   App: the types of the bot. `App` is the part of the Go struct that changes, `Services` are the
--     components that it calls, `World` is an app with an environment and the calls made so far.
--   App/Numbers, App/Fills, App/Upkeep: sizes and prices, `placeAndWait` and the rollback, the snapshot
--     of the strategy, the cooldowns and the USDC transfer.
--   App/Entry, App/Exit, App/Hedge, App/Regime, App/Receipts: `enterPosition`, `exitPosition`,
--     `rebalanceDelta` with `checkConnectivity`, `updateFundingRegime` with the guard of the exit, and
--     `maybeLogFundingReceipt` with the forecast and the spot mid price.
--   App/Restore: `restoreStrategyState`, which `Run` calls once before the ticks.
--   App/Overrides, App/Operator: the commands of the operator, internal/app/operator.go. Theorems:
--     App/Overrides/Fields, App/Operator/Safety, Guarded, Pause and Offsets.
--   App/Tick: `tick`, as the view that it takes and the decision on the view.
--   App/Frame and the modules Ends, Outcome, Switch, Streaks, Guard, Wait, Cooldown, Newest, Saved,
--     Actions, Decision and Tick/Frame: the theorems.
--   Examples: the theorems at concrete inputs, with an exchange that fills every order.
--
-- The shape of the model. An operation that can fail returns a result and the next world. A record of
-- another package keeps the fields that the bot reads. `float64` is a parameter `F` with its operations
-- (Prelude/Float); the few theorems that need the order of floats take the laws `IsOrdered`, which hold
-- of IEEE 754 with NaN. `int` is an integer that wraps where the code adds to it; times are nanoseconds
-- since 1970, and the zero time of Go is that of the year 1. An error is known by its message.
--
-- Loops and bounds. The retry loop of the executor is a recursion on the four attempts that may follow
-- the first. The polling loop of `waitForOrderFill` is a recursion on the number of ticks that the
-- ticker delivers before the deadline or the end of the context, which the timers tell. All other
-- loops run along a list. Nothing is cut off by fuel.
--
-- What is a parameter. The market data, the account, the exchange client, the store, the alerts, the
-- clock and the random client order ids are operations of `Services`, without laws. The store of the
-- executor keeps what it is given in the theorem about a restart, and only there. Reading and
-- printing numbers (strconv, `time.ParseDuration`) are the parameter `Numerals`, without laws; the
-- answers of the REST and WebSocket clients are operations of `Clients`, the store and the alerts of
-- the operator operations of `OperatorServices`; net/url is the parameter `Urls`, the YAML decoder a
-- function. The order in which Go goes through a map is that of a list.
--
-- What is not modelled. Logging, the texts of alerts and replies and the rows for the time series
-- database do not change the state of the bot. The app is one that `New` has built, so no component
-- is nil. Text is ASCII where case and blanks matter. What the account keeps for debugging is left
-- out. The contexts of the assets in the market data, the encoding and signing of requests, the
-- reader of .env files, the start of the bot and the network clients are not modelled, and the bot
-- still sees its account through `Services`. Of overlapping calls of one executor, placing an order
-- with its retries is one step.

pub mod Prelude
pub mod Config
pub mod Json
pub mod Account
pub mod Market
pub mod Strategy
pub mod Nonce
pub mod Exec
pub mod App
mod Examples
