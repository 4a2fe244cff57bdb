-- ===== src/Text.antt =====
-- Strings of the bundled driver (com.ibm.streamsx.mongodb/impl/include/mongo: base/string_data.h,
-- base/string_data-inl.h, util/mongoutils/str.h), inline code.
pub mod StringData
pub mod Comparisons
pub mod Searches
pub mod Characters
pub mod Affixes
pub mod Str
pub mod Splits
pub mod Stripped
