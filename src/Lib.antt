-- ===== src/Lib.antt =====
-- Verification of walde, an in-memory cache with a W-LFU admission policy.
--
-- A cache stripe keeps entries in nodes of a shared slab. Three doubly linked lists (window,
-- probation, protected) are threaded through the nodes, an index maps keys to nodes, a Count-Min
-- Sketch estimates how often a key is used and decides admission, and evicted entries go to a bounded
-- demotion queue. The striped cache is 64 stripes over one slab and one demotion queue.
-- The engine asks the striped cache first, then its second level, which a drainer thread fills from the
-- demotion queue, then a storage backend.
--
--   include/types.h                    Types
--   src/slab_allocator.cpp             Slab, with Slab/FreeList, Slab/Alloc, Slab/Pack, Slab/Tags
--   src/lru_list.cpp                   Lru, with Lru/Links, Push, Unlink, Remove, Ends, Frame
--   src/count_min_sketch.cpp           Sketch, with Sketch/Rows, Estimate, Frequency, Decay
--   src/demotion_queue.cpp             Queue, with Queue/Mask, Ring, Fifo, Pop, Power, Init, Kept
--   src/cache_stripe.cpp               Stripe, with Stripe/Lists, Steps, Moves, Demote, Touch, Contents,
--                                      Get, Slots, Remove, Overwrite, Fed, Admit, Replace, Fill, Insert,
--                                      Put, Write, Init, Instrumented
--   src/storage_backend.cpp            Backend, with Backend/Store
--   src/cache_engine.cpp               L2, with L2/Nodes, Recency, Stripes, Insert, Once, for one stripe of
--                                      the second level; Engine, with Engine/Levels, Lookup, Calls,
--                                      Coherence, Batch, Init, Sink, Kept, Instrumented, for the rest;
--                                      Engine/Threads, with Advance, Safety, Reads, Progress, Calls,
--                                      Alone, Start, for calls on several threads
--   src/demotion_drainer.cpp           Drainer, with Drainer/Delivery, Final
--   src/trace_loader.cpp               Trace, with Trace/Word, Text, Render, Count, Load, Stream
--   src/striped_cache.cpp              Striped, with Striped/Sharing, Invariant, Methods, Kept, Init, Batch
--   src/workload_generator.cpp         Workload, with Workload/Zipf, Bursts
--   include/latency_instrumentation.h  Latency, with Latency/Buckets, Samples, Percentile, Tracker, Tracked
--
-- A type of the source is a record or data type of the same name, a method a function of the same name
-- in snake_case that returns the new state. What reads or writes slab nodes is a command on the slab
-- (Slab.Cmd); it has no result where an assertion fails, an access leaves the pool or a loop does not
-- end, and Slab.Yields.Yields says that it has one. A vector of fixed size is a function of the index
-- or a list. Machine integers keep their wrap-around. XXH32 and XXH64 are parameters.
--
-- The iterators of a std::list are addresses of its nodes, and an access through one that points to no
-- node is a fault. What several objects of the source point to is kept in one place: the slab and the
-- demotion queue in the striped cache, which lends the queue to the stripe that runs, and the queue in
-- the drainer while it is considered by itself. A storage backend is a record of operations, with a
-- record of what a client relies on.
--
-- The loop of insert_into_window has as much fuel as the window has slots, and one round more; each
-- round takes a slot out of the window. A compare-exchange loop is given the number of its spurious
-- failures. The final drain has fuel for one round more than the queue has items. Loading a trace has
-- fuel for one call of next more than the file has lines. Keys and values are texts; the trace loader's
-- texts are lists of character codes.
--
-- In Engine a call of the engine is one step. In Engine/Threads it is cut into parts where the source
-- leaves one mutex and takes the next, so that calls on any number of threads and the drainer meet
-- between their parts; a call has at most four parts. A part is one step, since a stripe, the backend,
-- a stripe of the second level and the queue are each used under a mutex.
--
-- The loop over the buckets of a histogram has fuel for more rounds than there are buckets. Signed
-- latencies are words of 64 bits, compared with the sign bit flipped; a shift that overflows wraps
-- around, as it does on the target.
--
-- The workload generator's double and random number engine are parameters. A call of its next has fuel
-- for one call of itself, which is enough unless bursts are empty.
--
-- The branches of get and put of a stripe that run with a LatencyBreakdown are definitions of their own;
-- what the timers measure is given to them.
--
-- Not modelled: clocks and the times of admission and eviction, means and reports; hit rates; the
-- casts of float products in the stripe's constructor and of the rank in percentile_us, which are
-- parameters; the benchmarks; the failure of a stream in the middle of a file; the engine's
-- destructor, which detaches the queue when no call runs. Interleavings of slab operations are covered
-- only as far as the tag of the head word goes, over any sequence of compare-exchanges of the threads;
-- the free list itself is followed while one operation at a time runs.
pub mod Base
pub mod Types
pub mod Slab
pub mod Lru
pub mod Sketch
pub mod Queue
pub mod Stripe
pub mod Striped
pub mod Backend
pub mod L2
pub mod Latency
pub mod Engine
pub mod Drainer
pub mod Trace
pub mod Workload
mod Tests
