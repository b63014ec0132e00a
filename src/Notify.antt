-- ===== src/Notify.antt =====
-- The alerts of service/notification.go.
pub mod Alerts
pub mod Quiet
