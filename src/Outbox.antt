-- ===== src/Outbox.antt =====
-- The outboxes of backend/app/services: mails and the events of polygon mutations.
pub mod Email
pub mod Polygon
