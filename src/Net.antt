-- ===== src/Net.antt =====
-- The messages of the bundled driver (com.ibm.streamsx.mongodb/impl/include/mongo/util/net:
-- message.h, operation.h), inline code.
pub mod Headers
pub mod Overwrites
pub mod Messages
pub mod Sizes
pub mod Contents
