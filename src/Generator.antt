-- ===== src/Generator.antt =====
-- What the code generators refuse before any code runs: the checks of types in Common/BSONCommon.pm, and
-- of parameters at the top of Insert/Insert_cpp.cgt, Update/Update_cpp.cgt, Delete/Delete_cpp.cgt and
-- Query/Query_cpp.cgt (under com.ibm.streamsx.mongodb/com.ibm.streamsx.mongodb).
pub mod Checks
pub mod Shapes
pub mod Accepted
