-- ===== src/Lib.antt =====
-- strManager: a library that receives UDP streams and sends a copy of every packet to each
-- destination of its source.
--
-- A `Manager` (src/Manager.cpp) owns a pool of workers and hands each call to one of them:
-- `addSource` to a worker of the type that is asked for, found by port or by type or newly made,
-- and the other calls to the worker that has the source. A `Worker` (src/workers) owns sockets and
-- stream lists, and a thread that receives packets. A `StreamList` (src/streamlists) has one source
-- and its destinations, each a `UdpStream` (src/streams). A worker that has lost its last list
-- stops, and sends a message (src/Message.cpp) that makes the manager's handler drop it.
--
-- Files, below verification/, and the code they model:
--   Int                 the C++ `int`, and its conversions to and from unsigned types
--   Run                 undefined behaviour as a fault: null and dangling pointers, end iterators
--   Table               `unordered_map`: count, find, `operator[]`, assignment, erase
--   System              socket calls, byte order and clock: parameters, with the laws relied on;
--                       System/Toy is a machine that obeys the laws
--   Udp                 src/streams/UdpStream.cpp; predicate and hash of addresses from
--                       include/libstrmanager/Worker.h
--   StreamList          src/streamlists/StreamList.cpp; StreamList/Stats StatsStreamList.cpp
--   Ports               src/workers/Worker.cpp: portFd, fdPort, portListener, add_socket,
--                       remove_socket, init_socket, build_select_list
--   Streams             src/workers/Worker.cpp: management and forwarding, and their methods;
--                       Streams/Abstract the tables up to the order of their entries
--   Message             src/Message.cpp, include/libstrmanager/Constants.h
--   Worker              src/workers/Worker.cpp: sources, destinations, start and stop
--   Worker/Loop         Worker::run by rounds, ForwardWorker.cpp and StatsWorker.cpp: process
--   Rtcp                src/workers/RtcpWorker.cpp; Rtcp/Pairs what a pair of lists is to a reader,
--                       Rtcp/Reopen the sockets after a source was added and removed
--   Manager             src/Manager.cpp; Manager/Dispatch the virtual methods by class
--   Manager/Handler     the loop of Manager::messageHandler over the manager's sequence of messages
--   Mailbox             Worker::sendMessage and Manager::messageHandler over the message queue of
--                       Boost.Interprocess, a parameter; Mailbox/Laws what is relied on,
--                       Mailbox/Toy queues that obey it
--   Manager/Book        the abstract view: a map from sources to their destinations; Executions
--                       are the calls, the handler and the threads in any order, on one machine;
--                       in them no source is added of RTCP's type, with the identifier 0 or one in
--                       use, or at a port of more than 16 bits, and so no worker is an RTCP worker.
--                       Manager/Reach has executions with no such rule
--   Text                what the code uses of `std::string`; Text/Decimal numbers as text, `atoi`
--   Print               the printers of all classes, as the text that they give
--   Report              StatsWorker::generateStats, by rounds
--   Console             examples/CL_strManager/src/main.cpp; Console/Parse reads a line,
--                       Console/Session states what a session keeps; Console/Web has the handlers
--                       of examples/WS_strManager/src/main_ws.cpp, Console/Server its `main`
--   Scripts             the mains of examples/BC_strManager and examples/ZAP_strManager;
--                       Scripts/Broadcasting and Scripts/Zapping state them on the book; both use
--                       the identifier 0, so they are not executions
--   Examples            concrete machines, workers and managers to which the theorems are applied
-- The other files state and prove what the file above them defines.
--
-- State. Each object is a record, and each method takes the object and returns it changed. A method
-- that uses sockets or the clock takes and returns the state of the machine. A worker is an
-- index into the manager's sequence of all workers ever made, and a null pointer is `none`. A
-- stream list stands in one table entry at a time, so the shared pointers to it are the entry; where
-- two names may mean one list, as in `conmuteStreamList`, the code's second read is a second read.
-- A method of a worker holds the worker's mutex and is one step; `process` holds none, and is one
-- step here. `unordered_map` iterates in the order of insertion here, and `operator[]` on a missing
-- key inserts the default, as in the code.
--
-- Numbers. `int` is an unbounded integer where the code counts or names (listeners, identifiers);
-- ports are cut to 16 bits where `htons` takes them, packet lengths to 32 bits where `socklen_t`
-- holds them, and byte counts wrap around on 32 bits. Tables of the model have no bound. An `fd_set` has
-- room for the descriptors below FD_SETSIZE, a parameter of the machine; FD_SET of another is a fault.
--
-- Texts. A character is a byte. A position that `substr` refuses is a fault. `atoi` reads a number of
-- any size, so a text that spells no `int` is not covered. The logger is a parameter of the command
-- line: `debug` says whether it takes debug messages, since the calls stand in their text.
--
-- Loops. The loops over tables, lists and texts are structural recursion, and so is a session, over
-- the lines of its input. `Worker::run`, the handler's loop and `generateStats` have no end while
-- their flag is set, so the model has one round of each; `run` and `message_handler` count rounds.
-- The digits of a number are made on fuel, one more than the number.
--
-- The loop of the web service and the schedules of the message queue go by rounds as well; a call that
-- waits is an outcome of its own.
--
-- The web service's handlers for the tables give the runtime a pointer into a text that is gone when
-- the runtime reads it, so `serve` ends in a fault there once the text is printed.
--
-- Not modelled: logging and Message::print, what the programs write to their terminals around their
-- loops, the inside of the message queue and of the gSOAP runtime (both are parameters), and libltdl.
pub mod Prelude
pub mod Int
pub mod Run
pub mod Text
pub mod Print
pub mod Console
pub mod Report
pub mod Scripts
pub mod Table
pub mod System
pub mod Udp
pub mod StreamList
pub mod Ports
pub mod Streams
pub mod Mailbox
pub mod Message
pub mod Worker
pub mod Rtcp
pub mod Manager
pub mod Examples
