-- ===== src/Matrix.antt =====
-- apps/desktop/src-tauri/src/matrix: the Matrix backend around matrix-sdk, which is a parameter.
pub mod SessionFile
pub mod Session
pub mod Timeline
pub mod Verification
