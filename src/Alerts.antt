-- ===== src/Alerts.antt =====
-- The delivery of alerts: src/modules/alert-delivery/service.ts and its table.
mod Deliveries
mod Claims
mod Attempts
mod Counted
mod Fenced
mod Alone
mod Batch
mod Spent
mod Tests
