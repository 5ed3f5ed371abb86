-- ===== src/Market.antt =====
-- internal/market: the forecasts of the next funding payment, and what the WebSocket sends: mid prices
-- and candles.
pub mod Funding
pub mod Candles
pub mod Feed
