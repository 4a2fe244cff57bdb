-- ===== src/Operators.antt =====
-- The four operators' generated code (the *_cpp.cgt templates under
-- com.ibm.streamsx.mongodb/com.ibm.streamsx.mongodb), over the driver as a parameter.
pub mod Driver
pub mod Connection
pub mod Startup
pub mod Starts
pub mod Process
pub mod Writes
pub mod Requests
pub mod Keeps
pub mod Login
pub mod Sessions
pub mod Quiet
pub mod Reports
pub mod Accounted
pub mod Accounts
pub mod AsIs
pub mod Steps
pub mod Queries
pub mod Emissions
pub mod Answers
pub mod Inserts
pub mod Returned
pub mod Retrieval
