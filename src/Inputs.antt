-- ===== src/Inputs.antt =====
-- What the worker makes of its inputs: worker/src/accountIdentity.js and worker/src/sanitizers.js.
pub mod Identity
pub mod Sanitizers
mod Tests
