-- ===== src/Execution/Order.antt =====
-- src/execution/order.py: orders, the bracket, and the builder that makes one from an approved
-- candidate.
mod Defs
pub mod Build
pub mod Bracket
pub mod Geometry
pub use Defs.{
  Side, buy, sell, OrderType, market, limit, post_only, reduce_only, stop_market, stop_limit,
  take_profit_market, trailing_stop, Role, Order, OrderPlan, legs, has_exchange_side_stop,
}
