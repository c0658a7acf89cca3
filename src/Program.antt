-- ===== src/Program.antt =====
-- tpcc.cc: the program, with what it runs on: class TPCCDB of tpccdb.h as an interface, which TPCCTables
-- and the mock of mocktpccdb.h implement, and the transactions of tpccclient.cc as calls of it.
pub mod Database
pub mod OnTables
pub mod Mock
pub mod Buffers
pub mod Arguments
pub mod Run
pub mod RolledBack
