-- ===== src/Lib.antt =====
-- tpccbench, an in-memory TPC-C database with its client, modelled and verified.
--
-- The parts of the program and the files that model them:
--   BTree (btree.h): the B+ tree that every index is. A tree is a record of its depth and its root, a
--     node of depth d a value of the type Node V d. insert, find, del and find_last_less_than are
--     insert, find, del and findLastLessThan, and the helpers have the names of the source.
--     BTree/Refinement and BTree/Deletion relate them to a sorted list of entries.
--   Schema (tpccdb.h): the tuples and, in Schema/Outputs, what the transactions return, as records with
--     the names of the columns.
--   Keys (tpcctables.cc): make_stock_key and the like are makeStockKey and the like, which pack the ids
--     of a tuple into one key.
--   Tables (tpcctables.h, tpcctables.cc): the state of TPCCTables and its operations on items,
--     warehouses, stock, districts, orders and order lines. Tables/Supply has newOrderRemote, and
--     Tables/Vectors newOrderRemoteWarehouses of tpccdb.cc and the count of stockLevel.
--     Tables/Customers has the customers and the set that is ordered by name, Tables/NewOrders the map
--     of the new orders, Tables/HistoryLines the vector of the history.
--   Undo (tpccdb.h, tpccdb.cc, tpcctables.cc): the class TPCCUndo, and restore_all, the part of
--     applyUndo that copies the saved tuples back.
--   Session (tpcctables.cc): the tables with the undo argument of a transaction, and the monad of its
--     steps; Session/ApplyUndo has applyUndo, and Session/Steps what a buffer undoes.
--   Payment, Delivery, OrderStatus, StockLevel, Placing (tpcctables.cc, tpccdb.cc): the transactions;
--     Placing is the new order, with newOrderCombine; Placing/Placed says what an order that can be
--     placed is, and Placing/Completed runs it.
--   Population (tpccgenerator.h, tpccgenerator.cc): TPCCGenerator, which draws the tuples of the initial
--     database; Population/Tuples has those with a float, and Population/Loading the loops that
--     insert them.
--   Random (randomgenerator.h, randomgenerator.cc): RandomGenerator, over any source of numbers that
--     keeps to the ranges that it is asked for.
--   Client (tpccclient.h, tpccclient.cc): TPCCClient, which draws a transaction and asks it of the
--     database; the request is a value of the type Request.
--   Clock (clock.cc): the time stamps.
--   Program (tpcc.cc, tpccdb.h, mocktpccdb.h): main, whose arguments are in Program/Arguments and whose
--     loading and loop of transactions are in Program/Run. Program/Database has the class TPCCDB as a
--     record of its virtual methods, and the calls of it that the client makes; Program/OnTables is
--     TPCCTables as one, and Program/Mock the mock of the client's tests.
--   StupidUnit (stupidunit.h, stupidunit.cc): runAll of the test framework, with its report, and
--     jsonEscape. StupidUnit/JsonText reads a JSON text, and StupidUnit/Report the report.
--   Base holds the shared names, lists over native numbers and Boolean tests; Examples runs the model.
--
-- The client draws its requests from the random generator; the tables answer them, through keys and
-- B+ trees, and note in the undo buffer what they change. A pointer to a tuple is its place in the list
-- of the tuples of its type, and a hash map or a hash set is a list.
--
-- Numbers: keys, ids and counters are natural numbers, for none is negative where the program runs
-- without a failed assertion; a sum that can pass 2^31 is tested, and a failed assertion is `none`. The
-- unsigned index of findLastLessThan wraps around at 2^32. An order of more of an item than its stock
-- plus 91, which would leave a stock level below zero, is outside the model, and `none` as well.
--
-- Fuel: find_last_less_than takes one round for every deleted key that it passes; one round more than
-- the key is enough, since the keys that it tries fall. delete_values takes one round for every value,
-- and its keys fall too. json_escape takes one round for every character of the text, since it passes
-- over the characters that it inserts. redraw, of the random constants of a run, has fuel because
-- nothing bounds its number of draws, and so has draw_new, of the ids that are selected.
--
-- Not modelled: the times that the program prints, and its printing; floating point, whose type,
-- constants and operations are parameters, with the text that snprintf makes of an amount; memory
-- addresses, alignment and freeing, but for the loop that visits the values of an index to free them;
-- the tests, and of their framework all but the loop of runAll and its report.
pub mod Base
pub mod Schema
pub mod BTree
pub mod Keys
pub mod Random
pub mod Undo
pub mod Clock
pub mod Client
pub mod Tables
pub mod Session
pub mod OrderStatus
pub mod StockLevel
pub mod Payment
pub mod Delivery
pub mod Placing
pub mod Population
pub mod Program
pub mod StupidUnit
mod Examples
