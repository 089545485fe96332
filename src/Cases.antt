-- ===== src/Cases.antt =====
-- Concrete runs at which the theorems apply: batches through the tracker and the sink, documents
-- through the XML vent's parser and splitter, requests and replies of the web server and its end, the
-- loops of a worker and of the vents, configurations, the programs, their starts, runs, tuning and
-- tables of a machine, its picture and its stand-ins, its server and the builds after a change.
pub mod Batches
pub mod Documents
pub mod Requests
pub mod Programs
pub mod Configs
pub mod Graphs
pub mod Mocks
pub mod Launches
pub mod Machines
pub mod Counts
pub mod Servers
pub mod Tables
pub mod Averages
pub mod Pictures
