-- ===== src/Lib.antt =====
-- SPSock, a network library for Linux: a TCP server and a UDP server over epoll.
--
-- The TCP server accepts connections in one thread and gives each to an I/O thread. An I/O thread
-- waits for events; on a readable connection it moves bytes from the socket into the connection's
-- read buffer, on a writable one from its write buffer to the socket, and hands the connection's
-- callback to the worker pool. The worker calls it, and the callback reads, writes and asks for the
-- next event. Connections to be closed are collected in a list that the accepting thread works off.
--
-- What models which part:
--   * Config: SPTypes.h, and the assertions of `SPSockTcp::Config`;
--   * BufferPool: SPBufferPool.hpp, blocks with a reference count and two free lists; sizes and offsets wrap
--     as the code's int products do, and `Fits` says that a request's size does not;
--   * Buffer: SPBuffer.cpp, the circular buffer, whose store is a list of bytes; Stream has sequences
--     of reads and writes;
--   * Socket: the interface of `recv` and `send`, a record of operations and laws;
--   * Controller: SPController.cpp, one connection, on any such socket;
--   * BlockQueue: base/TPBlockQueue.hpp, the queue of a worker; Bounded has the list that it stands for;
--   * ThreadPool: base/ThreadPool.hpp, how tasks are spread and stolen; Workers has the loops of the
--     workers as steps, and a run is any sequence of these, of submissions and of what `exit` does;
--     Stealing and Search set the search of a worker against the function of the code; Ending,
--     Shutdown and Finish are about what is left to do once the queues have been stopped, Drain,
--     Executed and Lost about the tasks that stand in them then, Joined about the joins of `exit`;
--   * TaskStack: base/TPTask.h, tasks of any type in memory, and the helpers of base/TPBlockQueue.hpp
--     that construct, extract and destroy the elements of a queue;
--   * Task: SPTask.hpp, single and batched submission;
--   * Tcp: SPSock.cpp, `SPSockTcp`: Connections has accepting and closing, Events the handlers,
--     Threads the I/O threads, Loops a pass of the accepting thread and one of an I/O thread, Running
--     the run of the whole server, Instance the one instance from `GetInstance` to `Release`, Deferred
--     what SPDeferred.cpp and the function pointers lead to, Options the address to listen on and the
--     options of a connection, Retrying a call of `CreateIOEventLoop` behind one that failed;
--   * Udp: SPSock.cpp, `SPSockUdp`;
--   * Tests: runs on small inputs, and the theorems applied to them.
-- Prelude has what they share. A function of the model has the name of the one in the code, in the
-- spelling of this library. State is passed in and out; `unsigned int` sums wrap at 2 ^ 32 where the
-- code's do.
--
-- Fuel: `Alloc` halves its request, so the request itself and one more is enough; a connection retries
-- an interrupted call as often as the socket's bound says; the loops of `readSocket`, `commitWrite`,
-- `writeBack` and `moveToWriteBuffer` get one round more than there are bytes of room, to send or to
-- move; `commit` gets three rounds and needs two. The loops of the threads have no fuel: the main loop
-- takes a list of what happens in its passes, the workers a list of steps in any order. A round is a list
-- in which every worker has a turn; as many rounds as there is work left, and one more, are enough for a
-- pool that has been stopped.
--
-- Outside the model: logging, the text form of addresses, thread creation and core binding, the float
-- behind the number of workers, the descriptors spent when `accept` reports EMFILE, `emplaceBulk`, the
-- sizes and alignment of the tasks of base/TPTask.h, and the public copies of the headers under
-- include/. What `malloc`, the sockets and `epoll` answer is a parameter, and so are
-- whether the threads that `EventLoop` joins end, and what a read of a connection's entry gives after the
-- entry was freed (`stale`), which is what the close list reads. The assertion of `append_bulk` is left
-- to its callers: an abort is not modelled.
pub mod Prelude
pub mod Config
pub mod BufferPool
pub mod Buffer
pub mod Socket
pub mod Controller
pub mod BlockQueue
pub mod ThreadPool
pub mod Task
pub mod Tcp
pub mod Udp
pub mod Tests
pub mod TaskStack
