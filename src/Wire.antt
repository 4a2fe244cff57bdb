-- ===== src/Wire.antt =====
-- The bytes of a document, as the inline code of the bundled driver writes and reads them
-- (com.ibm.streamsx.mongodb/impl/include/mongo: base/data_view.h, bson/util/builder.h,
-- bson/bsonobjbuilder.h, bson/bsonelement.h).
pub mod Endian
pub mod Converters
pub mod Host
pub mod Swaps
pub mod Orders
pub mod Views
pub mod Objects
pub mod Iteration
pub mod Opened
pub mod Visited
pub mod Nested
pub mod Numbers
pub mod Buffer
pub mod Growth
pub mod Writer
pub mod Appends
pub mod Elements
pub mod Reader
pub mod Readback
pub mod Compound
pub mod Accessors
pub mod Checked
pub mod Typed
pub mod Frame
pub mod Framed
