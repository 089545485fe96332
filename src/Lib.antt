-- ===== src/Lib.antt =====
-- Skweltch: a distributed pipeline (vents make work, workers do it, a sink collects the results)
-- over zmq, with the tools that start and tune a machine of these and a small web server. The
-- development models the C++ of src/.
--
-- The parts and how they interact. A vent sends the sink the first message of a batch, sends data
-- messages to the workers and then the last message to the sink; each worker sends the sink a data
-- message for each piece of work. The sink's loop passes these to its own worker and asks a
-- tracker of message ids when the batch is whole. The XML vent cuts a document into the pieces of
-- work with a stream parser and a path splitter. What the programs of a machine are, and where
-- their sockets meet, is told by a configuration: the task monitor starts a program for each block
-- of it and hands it the pipes of its connections, by which the program joins its sockets, and the
-- tuner changes it between runs, each of which is a line of a table. A server starts and stops one
-- machine at a time on command, and watchers of a directory or a repository have it built after a
-- change. The web server parses requests, sends replies and closes its connections on a signal. Each
-- program joins its sockets before its loop starts. Small tools draw a machine, listen in the place of
-- a block, send messages by hand and look into a pipe.
--
-- The files, and the code that each models:
--   Prelude        shared names, tests on numbers, lists by native length, and int and size_t
--   Tracker        src/core/MsgTracker.hpp, .cpp: set_first, set_last, track, grow, complete, reset
--   Msg            src/core/Msg.hpp, SinkMsg.hpp, KillMsg.hpp: the messages and their codec
--   Elapsed        src/core/Elapsed.cpp: difference and get_total of getTotal
--   Sink           src/core/Sink.cpp: run is the loop of Sink::process, step one pass of it
--   Xml            src/vent/XmlParser.cpp: process, with a function for each case of its switch
--   Splitter       src/vent/XPathSplitter.cpp: on_start, on_end and the others of the element
--   Http.Message   src/ui/header.hpp, request.hpp
--   Http.Parser    src/ui/request_parser.cpp: consume and parse
--   Http.Handler   src/ui/request_handler.cpp, RestHandler.cpp, mime_types.cpp: handle_request
--   Http.Connection  src/ui/connection.cpp: handle_read, handle_write
--   Http.Server    src/ui/server.cpp, connection_manager.cpp: handle_accept, handle_stop, stop_all
--   Rest           src/ui/RestContext.cpp, src/ui/rest/loadHandler.cpp, nodesHandler.cpp
--   Graph          src/graph/MachineGraph.cpp: make_dot, write_node and the others of makeDOT
--   Stream         what is written to a stream, and how the writing ends
--   Send           src/util/send.cpp: send_main, pack_val, pack_pair, pack_tuple
--   Vent.Randoms   src/vent/VentRandomNum.cpp: send_all_randoms
--   Programs       src/core/Main.cpp and the main functions of src/work, src/sink, src/vent, src/pipe and
--                  src/build: setup_main, run_sinkavg and the others, pass_count, pass_dump
--   Work           src/core/Work.cpp: run_work is the loop of Work::process
--   Vent           src/core/Vent.cpp and the worker of src/vent/ventxml.cpp
--   Result         what a C++ function gives: a value, an exception, or nothing defined
--   Json           the values of json_spirit, and what the programs use of boost::lexical_cast
--   Json.JsonObject  src/config/JsonObject.cpp, JsonArray.cpp, JsonNamePredicate.cpp
--   Json.JsonPath  src/config/JsonPath.cpp: step is a round of the loop of getPath, loop the loop
--   Pipes          src/machine/PipeBuilder.cpp: collect
--   Ports          src/core/Ports.cpp: join
--   Tasks          src/machine/TaskMonitor.cpp: start, do_vent, do_block
--   Tuner          src/machine/MachineTuner.cpp: var_count, tune
--   Runner         src/machine/MachineRunner.cpp: run_one, run_passes is its loop
--   Machine        src/machine/machine.cpp, machinecmd.cpp, src/msg/MachineMsg.hpp: run_server
--   Poll           src/core/Poll.cpp, IPollWorker.hpp: process_poll
--   Watch          src/build/FileModChecker.cpp, polldir.cpp, Git.cpp, pollgit.cpp
--   Builder        src/build/workbash.cpp: build_work
--   Table          src/machine/Results.cpp, tune.cpp, soak.cpp: show_line, tune_main, soak_main
--   Blocks         src/util/blockinfo.cpp: block_info; Blocks.Mock is mockblock.cpp and listen.cpp
--   Build          src/build/MakeAnalyser.cpp: analyse
--   Words          src/vent/WordSplitter.cpp, src/vent/ventwords.cpp: process_text, send_words
--   Letters        src/work/workcharfreq.cpp, src/sink/sinkcharfreq.cpp
--   Workers        src/work/workcharcount.cpp, WorkSleep.cpp, workxpath.cpp, src/sink/sinkavg.cpp,
--                  SinkElapsed.cpp, sinkstrings.cpp
--   Http.Reply     src/ui/reply.cpp: status lines, stock replies, to_buffers
--   Cases          runs at concrete input
--
-- How the state is modelled. A loop is a function over the list of what its passes read from
-- outside (polls, sockets, the clock, the interrupt), so no fuel is needed: when the list ends,
-- the loop waits. The one exception is the loop of getPath, on fuel: a unit for each character of
-- the path is enough, as each round takes one. What changes a configuration gives the changed
-- value, and a pointer into one is the list of positions that lead to it. A worker, an XML element
-- and a receiver of chunks are functions of the calls made of them and their own state. A worker
-- that throws gives none. An int is ℤ, and where the code turns it into a size_t or back that is
-- written out modulo 2^64 and 2^32. The ids of a batch and the number of
-- messages stay below 2^31, as the code's int does, and so do the milliseconds of an elapsed time,
-- whose clock does not go back. A sum of two int that is known to overflow gives none where a
-- vent of random numbers makes it.
-- The size of a bucket, 1000 in the program, is a parameter. What has
-- been written to a stream, and what has been called of a socket, is kept where an exception or an
-- exit follows.
--
-- What is not modelled: logging, sockets, threads and processes, the libraries (msgpack, zmq,
-- boost, asio), which are parameters where the code relies on them (for random numbers the operations of float and
-- double; for the picture of a machine what GraphLayout.cpp makes of boost's layout; for a dumped
-- message whether msgpack unpacks it; for the REST handlers what they do with the files), json_spirit's reader and
-- writer, the command lines of the tools, run.cpp, which does once what the machine runner does
-- in a loop, killall.cpp and results.cpp, which only kill processes and fill a database,
-- IgnoreWhileWorking, which no program uses, what git and the file system do, and the programs
-- of other languages.
pub mod Blocks
pub mod Build
pub mod Builder
pub mod Cases
pub mod Elapsed
pub mod Graph
pub mod Http
pub mod Json
pub mod Letters
pub mod Machine
pub mod Msg
pub mod Pipes
pub mod Poll
pub mod Ports
pub mod Prelude
pub mod Programs
pub mod Rest
pub mod Result
pub mod Runner
pub mod Send
pub mod Sink
pub mod Splitter
pub mod Stream
pub mod Table
pub mod Tasks
pub mod Tracker
pub mod Tuner
pub mod Vent
pub mod Watch
pub mod Words
pub mod Work
pub mod Workers
pub mod Xml
