-- ===== src/Automation.antt =====
-- packages/lib/src/control-plane/scheduler.ts and packages/scheduler: automations.
pub mod Config
pub mod Action
pub mod Scheduler
pub mod Tests
