-- ===== src/Lib.antt =====
-- netbench measures how fast a receiver takes requests from the network. A sender (sender.cpp) opens
-- connections and sends requests, each of which a receiver (netbench.cpp) answers with as many bytes as
-- the request asks for. The receiver is driven by io_uring or by epoll, a control server (control.cpp)
-- tells senders which receiver listens on which port.
--
-- The files:
-- - Base: names and lemmas that all share; `Result` for code that throws (`die` and `checkedErrno` of
--   util.h); `Base.Assoc` for the heap of sockets.
-- - Protocol: `ConsumeResults` and `ProtocolParser::consume` (netbench.cpp), which both receivers feed.
--   A request is what the code reads, a header of eight bytes (the length of the body and the size of the
--   answer) and the body; the comments of netbench.cpp have four bytes and an answer of one byte.
-- - Buffers: `BufferProviderV1` (Ranges) and `BufferProviderV2` (Ring) of netbench.cpp, by which the
--   io_uring receiver gives the kernel buffers to read into.
-- - Uring: `BasicSock` and, in Runner, `IOUringRunner` of netbench.cpp, one function for each handler of
--   a completion; Rounds holds its constructor, `submit` and `loop`. It uses Protocol and Buffers.
-- - Epoll: `EPollData` and `EPollRunner` of netbench.cpp; Loop holds the store of sockets and one round of
--   `loop`. It uses Protocol.
-- - Control: the encoding of the map of ports, the server's sending loop and `getPortNameMap`. Both keep a
--   length in an `int`, which the loops only compare with 0: `to_int` gives 0 for a negative one.
-- - Scenarios: the scenarios of sender.cpp, with `makeScenario` in Make; Steps is how a sender drives one.
-- - Sender: `Connection` and `Sender` of sender.cpp, over any scenario; Actions holds what becomes of a
--   completion and `queueOne`, Loop holds `submit`, `processWaits`, `processCompletions` and `go`.
-- - EpollSender: the class of that name in sender.cpp.
-- - Stats: `LatencyResult` and `SendResults` (sender.cpp, sender.h), `RxStats` and the aggregates of
--   netbench.cpp, over an interface `Doubles` for `double`; Accuracy says what is used of its rounding.
-- - Launch: `parse`, `getRxEngine`, `pickPort` and the loops of `main` (netbench.cpp); Client holds the
--   receivers of `main`, with and without `client_only`.
-- - Socket and Util: socket.cpp, and `checkedErrno`, `leftpad` and `checkHugePages` of util.h and util.cpp.
-- Child modules are named for what they prove, and Tests holds runs and examples.
--
-- The kernel's replies are arguments: an operation takes the list of what its system calls report, and
-- gives `none` where the list is too short. The loops of the code that end by themselves are recursion on
-- fuel: `consume` takes its own bound, `grow` takes 32 rounds for a 32-bit size, `check_burst_time` one
-- round for each microsecond and one more; theorems say that this is enough.
--
-- The main loops (`go`, `loop`, `EpollSender::go`) recurse on the rounds that they are given; `queueOne`'s
-- loop takes fuel, and gives `none` when it runs out.
--
-- Not modelled: what is printed, the parsing of options by boost, the setup of io_uring and of huge pages, the
-- workload between requests, the threads that start senders and receivers and the accept loop of the
-- control server (calls of the operating system).
pub mod Base
pub mod Protocol
pub mod Buffers
pub mod Control
pub mod Epoll
pub mod Uring
pub mod Scenarios
pub mod Sender
pub mod Launch
pub mod Util
pub mod EpollSender
pub mod Stats
pub mod Socket
