-- ===== src/Lib.antt =====
-- Treadmill, a load tester: a model of its core, and what makes it correct.
--
-- A run has one scheduler, a number of workers and a control service. The scheduler's thread puts
-- messages on one queue for each worker: RESET when a round begins, SEND_REQUEST at random intervals
-- to the workers in turn, STOP at the end. A worker takes its messages one at a time on its own event
-- base; for SEND_REQUEST it asks its workload for a request and sends it on the next of its
-- connections, unless too many are outstanding. The control service, called by clients over thrift,
-- pauses and resumes the scheduler, changes its rate and limit, keeps a configuration and a watchdog
-- timer. The statistics are what the workers report to.
--
-- Files, and the code that they model:
--   Prelude: tests on numbers, lists, 32-bit integers and dictionaries that the rest shares.
--   Result: what a call gives where the process may end (CHECK, LOG(FATAL), abort).
--   Double: the doubles of the code, an interface with the laws of whole numbers below 2^53, which are
--     exact, and of a sum's rounding.
--   Event (Event.h): the messages.
--   Scheduler (Scheduler.h, Scheduler.cpp): the state and the calls. Scheduler/Loop is the thread's
--     loop() as a step function on a program counter; Scheduler/System puts the thread's steps and the
--     calls of other threads into one sequence, which is how any interleaving is written. Lifecycle,
--     Calls, Termination, Protocol, RoundRobin, Growth, Budget, Messages, Reach and Going prove what
--     holds of them. Scheduler/Pace writes the schedule of a history beside it, and Pacing compares
--     the two.
--   Worker (Worker.h): the state and the parts of a turn. Worker/Handlers has sendRequest(),
--     messageAvailable() and run(); Worker/Histories any sequence of messages, replies and stops. A
--     handler gives the new state and the effects that it has elsewhere, in order. Worker/Uses has a
--     workload and the calls that a worker makes of it; Limit, Accounting, Unfailed, Connections,
--     Latencies, Sound and Stopping prove what holds of any history.
--   Control (TreadmillFB303.h, TreadmillFB303.cpp): the handlers of the control service.
--     Control/Requests puts calls of clients, each one a request that `handle` answers, between the
--     steps of the scheduler's thread; Clients, Contact and Going prove what holds of any sequence.
--   Memcached (services/memcached): the requests, the workload and the connection's dispatch.
--     Memcached/Connection has the connection's constructor and tasks; Sequence and Ordered follow the
--     requests in their order.
--   Runner (Treadmill.h, and readDynamicFromFile of Util.cpp): setting a run up and shutting it down.
--     Runner/Settings follows a client's setting from the scheduler to a worker.
--     Runner/Setup composes the parts of run() up to the start of the workers, Runner/Course the whole
--     of it with what all threads do in it, as lists of moves (see Assembly); Runner/Saving exports
--     the configuration, Runner/Defaults has the flags of Treadmill.cpp. Worker/Readiness has
--     isReady() of Connection.h.
--   Assembly (Treadmill.h, Scheduler.cpp, Worker.h): the scheduler, its thread and its workers in one
--     state. A move is an action of the scheduler, a message that a worker takes, a reply, or a stop;
--     Assembly/Order, Threads, Early, Late, Cause, Halted, Stopped and Finished prove what holds of
--     any sequence of moves.
--   Statistics (CounterStatistic.h, CounterStatistic.cpp, StatisticsManager.cpp): counters and
--     histograms, shared by pointers into a store (Statistics/Registries), and what print() writes.
--   Reports (Worker.h, CounterStatistic.h, StatisticsManager.cpp): what workers report, as it stands
--     in the statistics: exceptions in the counter, latencies in the histogram that print() shows.
--   Random (RandomEngine.h, RandomEngine.cpp): the engines and their seeds.
--   Io (Util.cpp): readLine, readBlock, writeBlock and the attempts of nsLookUp.
--   Files (Util.cpp): whole files written and read, and the JSON in them.
--   Sleep (services/sleep): the requests, replies and handler of the sleep service;
--     Sleep/Connection has its connection and the histogram of the times slept.
--   The Examples files hold concrete runs, and each theorem at a concrete input.
--
-- How it is written: a function that changes an object takes its state and gives the new one. What
-- comes from outside, the clock, random numbers, replies, the answers of read(), is an argument.
-- int32_t and uint32_t fields wrap around (Prelude/Int); times and counts of 64 bits are whole
-- numbers, which a run does not take near 2^63. The types of other libraries, folly::dynamic, double,
-- fb_status, and the functions of other libraries are arguments with their documented laws. A loop
-- whose end depends on the outside runs on the list of answers that it gets, and a theorem says how
-- many are enough; the scheduler's loop is a step function, and 11 steps are enough after stop(), which
-- is what join() in a run waits for.
-- Threads: a call of the scheduler is one step between two steps of its thread, each of which reads
-- or writes the shared state once; a message to all queues is one step, and so is the start of a
-- round. A worker's handlers run on its event base, one after another; stop(), which other threads
-- call, comes between two of them. An increase() of a counter is one step, though its count_ is a plain
-- int64_t that several workers may increase at once.
--
-- Not modelled: logging but for the statistics, the form in which numbers are printed, the inside
-- of the quantile estimator and of the standard library's random engine, which are interfaces,
-- thrift and its servers, the Memcached client, CPU pinning by the operating system, and the joins of
-- the workers' threads. When the wait of a run for its promise or its runtime ends is left to the
-- moves given. A run has one worker at least: with none the code divides by zero. The index of the
-- Memcached workload, an int, is exact below 2^31. A dictionary stands for an unordered map; its
-- order is one that the map might have.
pub mod Assembly
pub mod Control
pub mod Double
pub mod Event
pub mod Files
pub mod Io
pub mod Memcached
pub mod Prelude
pub mod Random
pub mod Reports
pub mod Result
pub mod Runner
pub mod Scheduler
pub mod Sleep
pub mod Statistics
pub mod Worker
