-- ===== src/RoundTrip.antt =====
-- A value that was built into a document (Common/BSONCommon.pm) and is read back
-- (Common/QueryCommon.pm): what comes back, and for which values it is the value itself.
pub mod Pruned
pub mod Primitives
pub mod Loops
pub mod Values
pub mod Stored
pub mod Lossless
pub mod Losses
pub mod Rows
