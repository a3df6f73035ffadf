-- ===== src/Lib.antt =====
-- A verification library for Eureka, a collection of small C++ programs and libraries.
--
-- Each part below is a library or a program of its own in the repository; the parts do not call one
-- another. A module stands for one part. Its first file holds the data and the operations, under the
-- names of the source in snake_case; the modules below it hold the specifications and the proofs, and
-- `Tests` the runs at concrete inputs.
--
-- Common: tests on numbers, lists by native index, results with faults, signed integers. A `Fault` is
-- a failed check or assertion, a C++ exception, or a step that the language leaves undefined.
--
-- Buffer: the class Buffer of NetworkInfra/src/buffer.h and buffer.cpp, with the byte orders of
-- NetworkInfra/src/endian_utils.h in Buffer/Words. The state is the block and its two indices.
-- `Buffer/Fifo` compares calls on it with calls on a queue of bytes; `Buffer/ReadFd` has ReadFD, where
-- the answer of readv is given; `Buffer/Iterator` has the free operators of the iterator, on
-- places in a block. Sums of sizes
-- are below 2 ^ 64 while the block fits in memory.
--
-- ConnPool: conn-pool/conn_pool/pool.h. The state is the deque of idle connections and the size, which
-- wraps at 2 ^ 64. Each section under the lock is a function; `ConnPool/World` has the threads, as a
-- step relation in which any of them takes its next section, with the connections that are in use,
-- being made, and closed, and the slots that are lost when a handle is assigned to while it holds a
-- connection. The traits, which make and close connections, may fail at any step; time is given with
-- each step.
--
-- Ternary: TernarySearchTree/src/ternary_search_tree.h, ternary_search_tree.cpp and alphabet.cpp. A
-- node is rebuilt where the source changes it in place, since no node has two parents. The loops over
-- the nodes follow the tree, so that they need no fuel.
--
-- Hashids: hashids/hashids/hashids.h and hashids.cpp; the constructor is in `Hashids/Options`.
-- esl::strings::split is a parameter, of which `IsSplit` states the documented behaviour. The loop of
-- hash_number has 64 rounds of fuel, one for each binary digit of the number, which is enough for at
-- least two characters; the loop of ensure_minimum_length has as many as the minimum length, since a
-- round adds at least two characters. `Hashids/Hex` has encode_hex and decode_hex, where
-- esl::strings::split by length and fmt::format are parameters; `IsChunks` and `IsHexFormat` state what is
-- documented of them.
--
-- ExpTree: Expression Tree/exptree.h and exptree.cpp, and ExpEval of Expression Tree.cpp.
-- `ExpTree/Grammar` has the expressions that are meant, with their strings, trees, postfix strings and
-- values by integer arithmetic; the source is compared with it.
--
-- Bloom: bloom-filter/bloom-filter/bloom_filter.h and bloom_filter.cpp. MurmurHash2 is a parameter. What
-- the constructor computes in double is given.
--
-- Blocking: BlockingQueue/src/blocking_queue.h. Each section under the lock is a function, and the
-- threads take theirs in any order; a step of Pop is made only when the queue has an element.
--
-- Limiter: token-bucket-rate-limit/ratelimit/bucket_limiter.h and bucket_limiter.cpp. Time enters as what
-- has passed since the bucket was made. A result outside the range of int64_t is undefined; `InRange`
-- states what stays within it.
--
-- Backoff: backoff-retry/backoff/backoff_policy.h, backoff.h and backoff_attempt.h. A random engine is
-- given by its draws. A run in which the exponential policy gives a delay below 0, at 31 retries, ends
-- in a fault. The fuel of the retry loop counts the calls, of which there is one more than there
-- are delays.
--
-- Buddy: BuddyAllocator/src/buddy_util.h, bin_manager.h and bin_manager.cpp; the allocator over addresses,
-- of memory_bin.h, buddy_allocator.h and buddy_allocator.cpp, is in `Buddy/Allocator`. The state is the
-- vector of the largest runs, which `Buddy/Nodes` reads as a tree of idle bins, bins that are handed out and
-- split ones; `Buddy/Tree` has what Allocate and Free do to the tree, and the blocks in it. The loops have 65
-- steps of fuel, since each step halves an index or a width of 64 bits; trees have at most 60 levels. A hash
-- map is an association list, an address a number, and what make_unique returns for the slots is given.
--
-- Timers: NetworkInfra/src/timer.h, timer.cpp, timer_queue.h and timer_queue.cpp. The multimap is a list in
-- the order of its keys; what the handlers add to the queue is a parameter, and each reading of the clock is
-- given. The descriptor is its last setting.
--
-- Trie: TrieFoDict/src/trie.h and trie.cpp, over the alphabet of `Ternary/Alphabet`. A node is rebuilt where
-- the source changes it in place. The entries of Search's stack hold the children that are left where the
-- source has an index. Its loop has one round of fuel for each push and each pop, which are twice the nodes.
--
-- RcString: RCString/src/rc_string.cpp and rc_string.h. The state is the heap of blocks, where a deleted one
-- is none, and the block of each string. What stands in the memory of the member capacity_, which the
-- constructor of StringData does not initialise, is a parameter. `RcString/Calls` has the calls on values, of
-- which each string has one for itself; `RcString/Owned` keeps the counts. The class with an atomic count is
-- not modelled.
--
-- Not modelled are the parts that only call the operating system or a graphical interface, the
-- demonstrations, code of other projects, and the parts that no paragraph above names.
pub mod Common
pub mod Blocking
pub mod Bloom
pub mod Buddy
pub mod Buffer
pub mod ConnPool
pub mod Limiter
pub mod Backoff
pub mod ExpTree
pub mod Hashids
pub mod Ternary
pub mod Timers
pub mod RcString
pub mod Trie
