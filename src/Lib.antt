-- ===== src/Lib.antt =====
-- A model of the coroutine library of duan_src: timers, fibers, a scheduler of threads, an event loop over
-- epoll, hooked system calls, threads and locks, the logging module and the configuration.
--
-- The parts and how they interact:
-- - A TimerManager keeps timers in a set sorted by the time at which they are due. A fiber is a stack that
--   the main fiber of its thread swaps into and that swaps back. A Scheduler keeps a queue of fibers and
--   functions that its threads take tasks from, each task in a fiber. An IOManager is a Scheduler and a
--   TimerManager: its idle fiber waits in epoll for the descriptors and for the first timer, and queues
--   what became ready. A hooked system call that would block adds a timer and an event to the IOManager of
--   its thread and yields; the event or the timer schedules its fiber again. A Thread starts its function
--   and lets its constructor return when the function is about to run. Loggers print events through appenders and patterns, and are set up by the
--   configuration.
--
-- Which file models which part (one function for each function of the code, by its name in lower case):
-- - Timer.antt: duan_src/timer.h, duan_src/timer.cc. The shared pointers are addresses in a heap, the
--   std::set is the list of its addresses, sorted by the comparator, and erase, insert and lower_bound
--   work on that list. An operation holds its lock from start to end, but for listExpiredCb, which gives
--   its lock up and takes another and is two operations, expired_check and expired_take. Under Timer/ are
--   the order, the invariant, what each operation does, the race of two threads, and every history.
-- - Fiber.antt: duan_src/fiber.h, duan_src/fiber.cc on one thread. A World holds the objects, the globals
--   and the thread-local pointers. What the function of a fiber does up to its next swap, or its end, is
--   an argument. A switch of context moves the two pointers and the states.
-- - Scheduler.antt: duan_src/scheduler.h, duan_src/scheduler.cc. run is cut where a turn of a task begins
--   and where it ends (begin_round, end_fiber, end_cb, end_idle). Scheduler/System.antt lets the threads
--   take these steps in every order, with tasks that any thread queues and stop() at any time.
-- - IoManager.antt and IoManager/Dispatch.antt: duan_src/iomanager.h, duan_src/iomanager.cc. epoll_ctl is
--   the parameter `ctl` of a kernel state of any type, and what epoll_wait reports is an argument. The
--   contexts are a list by descriptor. A call of tickle() by a queueing is recorded by the address of its
--   scheduler, and the write to the pipe is the operation tickle. IoManager/Invariant.antt says what holds
--   between two operations, IoManager/Reach.antt has every history, and IoManager/Abstract.antt is the map
--   of waiters that the operations implement.
-- - Log.antt, Log/Formatter.antt, Log/Loggers.antt, Log/Define.antt, Log/Written.antt, Log/Printed.antt,
--   Log/Statement.antt: duan_src/log.h, duan_src/log.cc.
--   A string is the list of its bytes. The node that defines a logger is known by the function from its
--   keys to their scalars, and a written define and a printed
--   logger are such nodes.
--   localtime_r and strftime are the parameter `local_time`, and what vasprintf makes is an argument. The file of an appender is the bytes that it
--   holds; two appenders of one file name are not told apart from two files.
-- - Config.antt, Config/Variable.antt, Config/Containers.antt: duan_src/config.h, duan_src/config.cc. The registry is an association
--   list from names to the type and the address of a variable. What the code asks of a YAML::Node is the
--   parameters members, scalar and print, and the record Yaml for the conversions of containers, whose laws
--   are IsYaml in Config/Roundtrip.antt. FromStr and the == of a variable are parameters.
-- - Thread.antt, Thread/Guards.antt, Thread/Locks.antt, Thread/CasLock.antt, Thread/Start.antt: duan_src/thread.h,
--   duan_src/thread.cc. A guard is its m_locked and the calls that it makes on its mutex. The
--   classes of locks are the calls of the system that their methods make; Thread/System.antt says in
--   which phase of a lock each of these is allowed. CASLock is a flag
--   that any number of threads set and clear in any order. A Thread is the steps of two threads, the owner
--   in the constructor, join and the destructor, and Thread::run, statement by statement, with the calls of
--   SetName in the thread's function; the semaphore is its count.
-- - Hook.antt, Hook/Io.antt, Hook/Connect.antt, Hook/Sleep.antt, Hook/Flags.antt: duan_src/hook.h,
--   duan_src/hook.cc. A call is cut at yield(): do_io up to there, resume_io behind it, and on_timeout, the
--   function of the timer; they work on the IoManager of IoManager.antt and its timers. Hook/Course.antt
--   lets them take turns with all else in the process. FdMgr and FdCtx are the record FdMgr of their
--   operations; what their names promise is IsFaithful in Hook/Nonblock.antt. The file is not in the build
--   and does not compile against the other files as they are: yield() is read as giving the thread up until
--   the fiber is scheduled again, and schedule() as Scheduler::scheduler.
-- - Prelude.antt: Boolean tests, lists, sums, words of 64 bits, and how a call ends: with a value, in a
--   failed assertion (abort), in undefined behaviour (fault), or in an exception (throws).
--
-- Numbers: times, periods and counters are natural numbers and wrap at 2 ^ 64 where the code adds or
-- subtracts on uint64_t or size_t (u64, inc, dec). The cast of a timeout to int is its low 32 bits.
--
-- Fuel: init() of a pattern passes a byte in every round, so that a round for each byte and one more, which
-- split is given, read the whole pattern. Logger::log follows the chain of roots,
-- which getLogger makes one link long, and a fuel of 2 is enough for it. A number of 64 bits has at most 20
-- digits. ListAllMember needs more fuel than its node is deep. The loop of do_io on EINTR needs more fuel
-- than there are interruptions in a row (IsInterrupted in Hook/Interrupts.antt).
--
-- Not modelled: the registers and stacks of a context, malloc, the thread-local pointers of the
-- scheduler, the log lines that the library prints of itself, the descriptors of epoll and of the pipe
-- and their making, the text of a node of YAML, the sharing of a
-- pthread_rwlock_t by several readers, duan_src/mutex.h, which nothing includes, and of
-- duan_src/hook.cc the lookup by dlsym and the configured timeout of connect.
pub mod Prelude
pub mod Timer
pub mod Fiber
pub mod Scheduler
pub mod IoManager
pub mod Log
pub mod Config
pub mod Thread
pub mod Hook
