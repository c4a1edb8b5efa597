-- ===== src/OrderService/Filling.antt =====
-- createFill: how a fill changes the amounts, the percentage and the status of its order.
pub mod Steps
pub mod ByAmount
pub mod ByPercentage
pub mod Poisoned
