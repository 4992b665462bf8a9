-- ===== src/Webhooks.antt =====
-- sign/webhooks.py: the subscriptions of an owner and the log of the deliveries, as two tables, and
-- the owner-scoped operations on them. The selector of events is in Events, the check of the
-- receiver's address in Host, a delivery with its attempts in Deliver.
pub mod Events
pub mod Host
pub mod Tables
pub mod Deliver
pub mod Health
pub mod Isolation
