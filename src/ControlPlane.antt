-- ===== src/ControlPlane.antt =====
-- packages/lib/src/control-plane: the control plane's own logic.
pub mod Lock
pub mod SpecValidator
pub mod StackSpec
pub mod Rollback
pub mod Env
pub mod Vault
pub mod Secrets
pub mod CapabilityVars
pub mod SetupValidation
