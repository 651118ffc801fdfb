-- ===== src/Exchange.antt =====
-- The program's parts together: from a datagram to what a subscriber reads on its screen, and from a line
-- that a subscriber types to the subscriptions that the server holds.
pub mod Publishing
pub mod Subscribing
