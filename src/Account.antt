-- ===== src/Account.antt =====
-- internal/account: the balances, positions, open orders and fills of the user, as messages of the
-- exchange report them. `Json` is what encoding/json makes of a message; the REST and WebSocket
-- clients are not called here, their answers are arguments.
pub mod Parse
pub mod Fills
pub mod Orders
pub mod Balances
pub mod Updates
pub mod Requests
pub mod Funding
