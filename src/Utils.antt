-- ===== src/Utils.antt =====
-- utils/*.go.
pub mod Strings
pub mod Git
pub mod File
pub mod Guarded
