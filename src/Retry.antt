-- ===== src/Retry.antt =====
-- Retries of failed transfers: the policy (pkg/transfer/status.go), the error handler
-- (error_handler.go) and the scheduler (retry_scheduler.go). The parts are the children.
pub mod Policy
pub mod Handler
pub mod History
pub mod Scheduler
