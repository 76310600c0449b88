-- ===== src/Lib.antt =====
-- pi-collect collects data by plugins that are written in Lua: inputs produce data, processors and
-- aggregators work on what is stored, outputs report it. An agent learns from a server which
-- plugins are to run, a manager loads and replaces them, an executor calls them at every tick, and
-- what they produce is kept in memory and in a bbolt database.
--
-- Parts and files:
--
-- Rw (pkg/rw): the wire format of the agent. Rw/Endian has the conversions of integers, Rw/Frame
-- the readers of framed slices, strings and errors, Rw/Messages the writers. A reader is the list
-- of the bytes that are still to come; a writer is a state and one operation; bytes.Buffer is such
-- a writer. encoding/json is a parameter.
--
-- Util (pkg/util/util.go): sorting of times, and the difference of two lists of hashes by which the
-- agent finds what to load and what to delete.
--
-- Storage (storage): Metric is the data of one item by time; Bolt the store over bbolt, which is a
-- parameter, a record of its transactions and calls; Messenger the buckets, metadata and timed data
-- (db_operation.go); Memorizer the cache in front of the database (storer.go); DataBox the plugins'
-- view of it. Keys has the decimal form of a time and the conversion of a number to a string of one
-- code point, both from Go's documentation.
--
-- Plugin (models/luaplugin, pkg/engine): the trigger interval, the call counter, the factories and
-- the pool of Lua states, which are numbers here. Running Lua is a parameter.
--
-- Manager (manager/lua_manager.go): the running plugins and the updates by category.
-- Manager/Removal is the loop that collects indices, sorts them in descending order and cuts the
-- list; replacement and removal of running plugins use it for each category.
--
-- Config (config/config.go): the configurations that run, those to update and those to delete, and
-- the hashes of the loaded sources. Config/Checkout follows an input through two deletions.
--
-- Config/Marking has the parsing of plugin markings and of configuration documents; JSON is a
-- parameter, and a configuration document is what the code reads of it.
--
-- Config/Files has the files of the plugins and Parse, which reads them at the start; the disk and the
-- digest are parameters. What tryUpdateConfig writes to the disk is followed in Parse, and left out of the
-- manager's handlers, which have no disk here. Config/Files/Lost follows a plugin's new version over the deletion of the old.
--
-- Executor (executor, and the handlers of manager/lua_manager.go): a round of all plugins, the times
-- of a round, and the handshake by which the running plugins change. Executor/Handshake has the
-- manager's loop and the executor's loop as steps over two channels; a handler is one step, since it
-- touches only what the executor does not touch until it is told. Executor/Blocked follows an update
-- that fails. What a Lua function does to the data box is a parameter; one that does not return is left
-- out. A round takes the interval of the configuration, since its timeout can be zero, which panics.
--
-- Agent (agent): what the cases of ParseWatchPlugin set, and how GetUrl fetches the texts that go to
-- the manager. Agent/Requests has the requests over the wire format, with both ends of a connection,
-- and one round of the loop that receives hashes.
-- Agent/Loop has the two loops as steps over the channels between them; a case is one step, with the
-- variables that it shares. The server, JSON and MD5 are parameters.
--
-- Report (report/http_request.go): what the plugins report. A detail is sent, what could not be
-- delivered is kept in a bucket of the store (Storage/Bolt/Laws says what bbolt promises of calls that
-- succeed), and a tick tries all of it again. Servers and clock are the world of the record Web. A bound of a
-- retry's loop is the number of times that it still may ask for the context before that is done.
--
-- Converter (pkg/converter): the values of Lua and of Go, two mutual blocks of data, and the
-- conversions between them. A table is its entries in an order in which ForEach visits them; the tables' operations and
-- JSON are the record Lua.
--
-- Docker (pkg/docker_operator): the table of containers. Polling and the retries at the start are in
-- base.go, the events with their channel and their cache in events_handler.go. Docker/Events/Phase is
-- the life of one container, against which a tick is stated; Docker/Events/Queue the two loops as steps
-- in any order. The daemon is a parameter.
--
-- Examples: concrete runs of the code of each part.
--
-- A Go function that changes state and may fail is a function from a state to an outcome and a
-- state: `ok` and `err` for the returned error, `panic` for a run-time panic. int64 and
-- time.Duration are integers; the lengths of slices are taken modulo 2^32 where the code converts
-- them. Only the printing of a number runs on fuel, which is the number itself and at least the count
-- of its digits. Go's maps are association lists; their order of iteration is the list's, and no
-- theorem depends on it.
--
-- Not modelled: locks, logging, the command line, opening files and databases, the start of the
-- program, the agent's dialling, the settings of the docker daemon, the database and the log, the
-- docker operator's goroutines and JSON, and the functions that are registered in Lua, since they
-- are I/O or only pass values on; the reasons that a server gives in its answers, since only the log
-- reads them.
pub mod Base
pub mod Rw
pub mod Util
pub mod Storage
pub mod Plugin
pub mod Manager
pub mod Config
pub mod Docker
pub mod Executor
pub mod Agent
pub mod Report
pub mod Converter
pub mod Examples
