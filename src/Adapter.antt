-- ===== src/Adapter.antt =====
-- The process of the adapter: `Run`, `BecomeDaemon`, `createLock`, `GeneratePidFileName`,
-- `UpdateParameterFilter` and `CreateLoggerFacility` of src/Adapter.cpp, for the build for the station. What
-- the system calls return, the rows of the data base, and the bytes that arrive on a socket are parameters.
pub mod Process
pub mod Client
pub mod Run
pub mod Names
pub mod Laws
pub mod Examples
