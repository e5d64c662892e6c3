-- ===== src/Otc/Settlement.antt =====
-- The settlement of an order on IQ Option: wait_settlement of src/otc/broker.py, with the polls that it makes.
pub mod Rows
pub mod Poll
pub mod Wait
pub mod Ends
