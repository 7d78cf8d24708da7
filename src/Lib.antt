-- ===== src/Lib.antt =====
-- The verification library of CustomDatabase, a B+ tree database in C++: a write-ahead log, a page
-- cache over a content-addressed page storage, a queue of page writes that worker threads empty, a
-- manager of key versions for transactions, a monitor of the components' health, a scheduler of
-- background jobs and a manager of checkpoints.
--
-- The parts and how they meet. The tree (include/btree.h, src/Btree.cpp) owns a content storage, a
-- page cache, a writer queue and a log. It reads its nodes through the cache, which loads them
-- from the storage; a changed node goes into the cache as dirty and into the queue, whose workers
-- store it and clear its dirty flag. Every insert is logged first. The version manager, the health
-- monitor and the job scheduler stand beside the tree and share nothing with it. The checkpoint
-- manager flushes the cache, writes checkpoints to the log, and has the scheduler call it at
-- intervals.
--
--   Base              lists, tests, association lists, counts and bitwise words
--   Page              include/page_manager.h, include/content_hash.h and src/page_manager.cpp
--   Memory            the pages that std::make_shared makes, by address
--   ContentStorage    include/content_storage.h: storePage, getPage, hasContent, getPageIdForContent
--   PageCache         include/page_cache.h and src/page_cache.cpp
--   WriterQueue       include/writer_queue.h and src/writer_queue.cpp; start, stop and the worker
--                     threads as a relation between states are in WriterQueue/Crew
--   Wal               include/wal.h and src/wal.cpp; replay is in Wal/Replay, and the replay with
--                     handlers in Wal/Redo
--   VersionManager    include/version_manager.h and src/version_manager.cpp; the clean-up is in
--                     VersionManager/Collection
--   HealthMonitor     include/health_monitor.h and src/health_monitor.cpp
--   JobScheduler      include/job_scheduler.h and src/job_scheduler.cpp: the jobs and the workers are
--                     in JobScheduler/Jobs, the recurring jobs in JobScheduler/Recurring, and the
--                     critical sections of its threads, a step each, in JobScheduler/Threads
--   CheckpointManager include/checkpoint_manager.h and src/checkpoint_manager.cpp, with truncate and
--                     getWALSize of src/wal.cpp
--   BTree             include/btree.h and src/Btree.cpp: what a method does to the vectors of one page
--                     is in BTree/Nodes, the helpers in BTree/Operations, the methods in BTree/Calls,
--                     the borrowing and merging, which nothing calls, in BTree/Rebalance, and the
--                     destructor in BTree/Closing
--   Statistics        the percentages of the getStats functions; each of these is in the Statistics
--                     file of its class
--   Fraction          include/fraction.h
--   Examples          concrete data, and the theorems applied to it
--
-- A class is a record of its fields and a method a function from the record to the record and the
-- result, under the method's name in snake_case; `none` or `undefined` is what the C++ leaves
-- undefined (a read outside a vector, a loop without end). A shared pointer to a page is an
-- address in the memory. A method that takes a mutex is one step; one that takes several, or works
-- between them, is several steps in JobScheduler/Threads and WriterQueue/Crew. The orders in which
-- threads make such steps are lists of calls, or a relation between a state and the next. The
-- unsigned integers are natural numbers with their wrap-around written out; a time is a number
-- that the call is given. What the C++ takes from elsewhere is a parameter: the bytes, the order
-- and the equality of keys, std::hash and std::to_string (`KeyType`), the layout of the log
-- records in memory (`Layout`, whose laws say that sizes and encoded bytes fit together), the
-- arithmetic of `double` (`Double`, whose laws in `IsRounded` are those of IEEE 754), the
-- addresses that the allocator gives to jobs, which alone order the scheduler's queue, and what
-- the jobs' functions do.
--
-- Loops whose end is not plain from their form have a bound on their rounds. The bound of
-- evictIfNeeded is one more than the entries of the cache, each of which a round removes; that of
-- replay is one more than the bytes of the file, of which a round reads at least one; that of a
-- worker is any number above the requests that wait, and the rounds of a job worker are a list of
-- their times. The recursion of the tree's methods has a bound `depth` that the theorems quantify
-- over; on a tree of one leaf 1 is enough.
--
-- Not modelled: the printed messages and reports; the waiting of threads and their time outs, with
-- waitForEmpty; the destructors of the classes other than the tree and the log, which only call
-- stop or flushAll or mark objects that go away; updatePageChecksum, which nothing calls;
-- cancelJob and handleJobTimeout of the scheduler, which have no body; src/hash_util.cpp, which
-- only calls the Botan library; and the demo programs, which call the library and print. A job's
-- function does not change the scheduler while it runs, the handlers of a replay return, the keys
-- of the log are plain bytes (reading raw bytes over a std::string, as src/wal.cpp does, is
-- undefined), a mutex that is locked by the thread that holds it blocks for ever (the standard
-- leaves it undefined), and performCheckpoint is modelled where no call in it throws.
pub mod Base
pub mod Page
pub mod Memory
pub mod ContentStorage
pub mod PageCache
pub mod VersionManager
pub mod Wal
pub mod WriterQueue
pub mod HealthMonitor
pub mod JobScheduler
pub mod CheckpointManager
pub mod BTree
pub mod Statistics
pub mod Fraction
pub mod Examples
