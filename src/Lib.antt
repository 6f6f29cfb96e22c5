-- ===== src/Lib.antt =====
-- ggggc is a general garbage collector for C programs. A program declares the layout of its objects, which
-- becomes a descriptor per type, and pushes the addresses of its local references on a pointer stack;
-- allocator.c gives out pools and descriptors, one of two collectors (collector/gembc.c, generational
-- and compacting, or collector/portablems.c, mark and sweep) gives out objects and reclaims them, a
-- barrier (gen-barriers.c) stops the threads for a collection, and collections/ builds lists and maps on top.
--
-- The parts, their files, and what stands for what:
--
-- * Heap.antt is the memory that ggggc/gc.h describes: a word for each byte address, with 8-byte words and
--   64 bits in a word; NULL is 0. Heap/Walk.antt is the loop over an object's pointer words that both
--   collectors have, here as portablems writes it: one description bit for each word, a new
--   description word every 64 words. Tagged references (GGGGC_FEATURE_TAGGING) are a Boolean parameter.
-- * ToSearch.antt is the chain of search buffers of ggggc-internals.h with TOSEARCH_INIT, TOSEARCH_ADD,
--   TOSEARCH_NEXT and TOSEARCH_POP: the buffers in front of the current one, the current one, and those
--   behind it that are kept for later. WorkList.antt is the interface by which `mark` uses it, a
--   record of operations and laws, and ToSearch/Stack.antt fills that interface.
-- * MarkSweep/Mark.antt is `mark` of collector/portablems.c. Its fuel counts the rounds of the `while` loop;
--   MarkSweep/Mark/Correct.antt gives the bound. The graph of the objects is in MarkSweep/Mark/Graph.antt.
-- * MarkSweep/Roots.antt is the loop of ggggc_collect0 over the pointer stacks of all threads, a list of addresses for
--   each frame, a list of frames for each thread. Each `mark` has the same fuel.
-- * MarkSweep/Sweep.antt is `sweep`: one function for each branch of the inner loop (keep_block,
--   free_block, and link_block for the free list), the two loops, and the last link. The fuel of the
--   inner loop is the length of the pool in bytes, and every block takes at least three words.
--   MarkSweep/Sweep/Layout.antt says what a heap is made of; the pools of a thread are a list.
-- * MarkSweep/Clear.antt is the first loop of clearFreeList, with fuel for each element of the free list.
-- * MarkSweep/FreeList.antt is the search of ggggc_mallocRaw on the free list, with the pointer to a pointer
--   `freeListCur` as a Cell, and the memset of what it finds. Its fuel is one more than the elements.
-- * BreakTable.antt is findBreakTableEntry of collector/gembc.c, the search for where a compacted object
--   went. Its fuel is fixed for each table and proved enough.
-- * Gembc/Allocate.antt is ggggc_newPoolGen, ggggc_mallocRaw up to a collection and ggggc_mallocGen1 of
--   collector/gembc.c, with the default sizes of pools and cards. A generation is the list of its pools, split at
--   ggggc_pools[gen]; `pool->next` is the next in the list. The pool that ggggc_newPool returns is a parameter.
-- * Gembc/Remember.antt is the write barrier GGGGC_WP of ggggc/gc-gembc.h, for two generations or more.
-- * Gembc/Collect0.antt is a round of the last loop of ggggc_collect0 of collector/gembc.c, after the pop, with ADD_OBJECT_POINTERS:
--   a young object moves to the generation above. The generation of an address (GGGGC_GEN_OF) is a parameter, as is
--   the fuel for forwarding pointers. Gembc/Collect0/Starts.antt is the loop over a pool's remembered cards, from which the
--   collection starts, with fuel for the objects in a card.
-- * Gembc/CountUsed.antt is ggggc_countUsed, with the marks (IS_MARKED_PTR, UNMARK_PTR) and the forwarding pointers that
--   it reads. The loops have a round for each byte of the pool; the fuel for the forwarding pointers is a
--   parameter. Gembc/CountUsed/Blocks.antt says what a pool is made of then.
-- * Gembc/Compact.antt is ggggc_compact of collector/gembc.c and the macro FOLLOW_COMPACTED_OBJECT. The loop has a round
--   for each byte of the pool, and every round passes four words or more. qsort is a parameter: it takes the
--   comparator, the memory, the base and the number of elements. Gembc/Compact/Layout.antt says how
--   ggggc_countUsed leaves the pool.
-- * Barrier.antt is gen-barriers.c as a step relation: each call of ggc_barrier_wait_raw moves by the steps
--   that the mutex and the two semaphores allow, in any order of the threads. Taking the lock and
--   leaving it again is one step, since nothing blocks in between. A barrier for no thread is excluded.
-- * Collections/Store.antt and Collections/Lists.antt are collections/list.c on the objects that
--   ggggc/collections/list.h declares. An address is the identity of an object there: the pointer stack keeps
--   references up to date, so that a collection is not visible to these functions. A read or write
--   through NULL is a fault. The address of a new node is a parameter, the one the allocator returns.
-- * Collections/Maps.antt is GGC_MapGet, GGC_MapPut and GGC_MapClone of collections/map.c. A chain of entries is a list and an array a
--   function of the index, since each entry is in one chain only. The hash and the comparison are
--   parameters. The doubling of the size is not bounded by the width of size_t.
-- * Pools.antt is the list of free pools of allocator.c, ggggc_newPool and ggggc_freeGeneration. What allocPool
--   returns is a parameter, as are the offset of a pool's content and GGGGC_POOL_BYTES. The fuel for
--   the walk to the last pool counts the pools.
-- * Pools/Expand.antt is ggggc_expandPoolList. The results of newPool are a list, at whose end it returns NULL; the fuel
--   counts the pools. The sums and the shift wrap around at 2 ^ 64.
-- * PointerStack.antt is a thread's pointer stack: the macros GGC_PUSH_n of ggggc/push.h, which differ in the number of
--   references only, GGGGC_POP and roots.c. GGC_YIELD in the push, a chance to collect, is left out. A function's use of the
--   stack is nested blocks, as the automatic pop at the end of a scope makes it. The address of a frame or of
--   what malloc returns is given with the block. The fuel counts the frames of functions.
-- * Descriptors.antt is the allocation of descriptors and arrays of allocator.c and ggggc_malloc: the
--   table ggggc_descriptorDescriptors, with as many entries as globals.c gives it for the default size of pools, the
--   descriptors' words in memory, and the slots; to look behind the table or behind the one pointer word of a slot is a fault. ggggc_mallocRaw is an
--   interface there, a record of an operation and its promises as long as no collection is due, and
--   Descriptors/Gen0.antt fills it with that of Gembc/Allocate.antt. The fuel for the recursion on
--   sizes counts nested calls: f + 2 of them are enough for objects of 64 * (f + 1) words. The locks are left out, so a call is one
--   step, and that a table entry or slot is made a root (GGC_PUSH_1 and GGC_GLOBALIZE) is an entry of `globals` or a flag.
-- * Blocking.antt is ggc_pre_blocking and ggc_post_blocking of threads.c: the count of the threads, the count with which
--   the world barrier was initialised, `none` while it is not (to destroy it then, or to initialise it twice, is a fault), the
--   lists of the blocked threads' pools and pointer stacks, by thread, and the runs of threads that block
--   and return in any order, and of the first lines of a collection. Threads that start or end meanwhile are not in it.
-- * Base.antt passes on the library's names, with Boolean tests and list lemmas on native numbers.
--
-- The configuration is a 64-bit machine without GGGGC_FEATURE_EXTTAG, GGGGC_FEATURE_JITPSTACK,
-- GGGGC_FEATURE_FINALIZERS and the debugging options. malloc in TOSEARCH_INIT and TOSEARCH_NEXT is
-- assumed to succeed, since the code aborts otherwise.
--
-- Not modelled: the rest of collector/gembc.c (the roots, the restarts and the end of ggggc_collect0, and the other
-- steps of a full collection), ggggc_yield, the retries of ggggc_mallocRaw and the
-- growth of the heap in clearFreeList, the
-- system allocators, the start and end of threads in threads.c, and the
-- other macros of ggggc/gc.h.
pub mod Base
pub mod Heap
pub mod WorkList
pub mod ToSearch
pub mod MarkSweep
pub mod BreakTable
pub mod Gembc
pub mod Pools
pub mod Barrier
pub mod PointerStack
pub mod Descriptors
pub mod Blocking
pub mod Collections
