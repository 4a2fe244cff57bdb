-- ===== src/Client.antt =====
-- The inline code of the bundled driver's client (com.ibm.streamsx.mongodb/impl/include/mongo/client:
-- dbclientinterface.h): connection strings, queries, the database commands and the connection.
pub mod Servers
pub mod QuerySpecs
pub mod Commands
pub mod Connections
