-- ===== src/Lib.antt =====
-- Models of the containers and allocators of ScalBase, a C++ header library, with their
-- correctness theorems. Every container is a struct over a block of memory that an arena or a caller
-- provides; the containers share the helpers of Base.h. Strings are made in an arena and are the
-- keys of a hash table, and the job
-- system puts its jobs into one queue for each thread; else they do not call one another.
--
-- Parts, and the files that model them:
--   Base.h               Base: FNVHash64, FNVHash64_CStr, FastModulo, AlignPowTwo,
--                        AlignPowTwoCeil, AlignPowTwoCeil32, IsPowerOf2, AlignSizeTruncate, AlignSize.
--   Lib/HashMaps.h       HashMaps: StaticHashMap with get_mem_size, init, add, get, clear, remove.
--   Lib/BHeap.h          BHeap: init, push_min, push_max, pop_min, pop_max, bheap_clear, bheap_empty;
--                        heapify is the loop of HeapifyMin and HeapifyMax.
--   Lib/DArray.h         DArray: one function per method.
--   Lib/StaticArray.h    StaticArray: StaticArray and StaticList, one function per method.
--   Lib/Arena.h          Arena: ArenaCreateMin, ArenaCreate, ArenaGrow, ArenaShrink,
--                        ArenaSizeRemaining, ArenaSnapshotBegin, ArenaSnapshotEnd, ArenaPush,
--                        ArenaPushZero, ArenaPop, SAllocatorArena, MemoryInitialize, GetScratch.
--   Lib/Handles.h        Handles: NewHandle, ReleaseHandle, DoesHandleExist, HandlesPoolCreate.
--   Lib/BitMap.h         BitMap: Flag for Flag8, Flag32 and Flag64, and BitArray.
--   Lib/Pool.h           Pool: init, reset, get, give_back for Return, is_pointer_in_pool.
--   Lib/SparseArray.h    SparseArray: SparseSet with init, add, remove, get.
--   Lib/String.h         String: one function per operation, over the record of a header and a block.
--   Lib/Vec2i.h          Vec2i: pack_int64, unpack_int64, and the integer operations by their names.
--   Lib/StringHashMap.h  StringHashMap: resize, add, get_index for Get, clear_allocator, remove_allocator,
--                        over the strings of String.
--   Lib/QueueThreaded.h  QueueThreaded: enqueue and dequeue as calls; Produce, Consume and Step interleave
--                        their accesses to the shared memory.
--   Lib/Jobs.h           Jobs: jobs_execute, jobs_dispatch, job_handle_wait and work, with push_back and
--                        pop_front of JobQueue over QueueThreaded.
-- A function of the source keeps its name in snake case. The child modules of a part hold its
-- invariants and proofs, and Tests holds its runs. Prelude holds what the parts share: checked
-- memory cells, the list of the first cells of a block, words and bit operations.
--
-- State. A struct is a record, and a method returns the new struct. A block of memory is a function
-- from index to cell. Every access is checked against the size of the block: `Run` has a
-- value, `fault` for an access outside the block, and `out_of_fuel` for the end of the model's fuel.
-- Integers are natural numbers; an operation that can leave its width keeps its wrap-around. Asserts
-- are compiled out, as in a build without them, and an error message has no effect on the state.
-- A pointer is an address where arithmetic is done on it, in Arena and BHeap, with 0 for null.
--
-- Bounds and fuel. The probe length of a bucket is 16 bits wide, so a valid hash table has at most 2 ^ 16
-- buckets. The loops of a hash table get one round more than there are buckets, and those of the heap
-- one more than there are items, at most 2 ^ 30 of them when a heap is popped, so that the indices of
-- children are an int; the theorems show that this is enough, since they state
-- that the call returns, save for the one that shows that a loop does not end. The loops of the
-- powers of two get a round for each bit of the word. A queue of jobs holds at most 255 jobs, so 256
-- rounds empty it. The loop of JobHandleWait that yields takes any fuel: one round is enough when
-- no job is lost.
--
-- Parameters. The bytes of a key, the equality of keys, the product of a capacity and a load factor,
-- the hash of a string, what is printed into a string, the encoding of a rune, the contents of a fresh block, the compare function of a heap and the platform's memory functions
-- are arguments of the definitions that use them.
--
-- Not modelled: DHashMap, StaticHashMap::Replace and the calls of StringHashMap that do not compile,
-- the float distances of Vec2i, LinkedArray, HeapAllocator, Events, Variant and Debug, and from
-- Base.h the text formatting, the intrusive list macros and the logging. The contents of memory
-- behind arena addresses, the start of threads and printing are left out. The steps of
-- QueueThreaded see one order of all accesses, and the jobs are those of a program whose other
-- threads stand still.
-- Names that the source uses without declaring are read as what they stand for: `map` in the `Clear` of
-- HashMaps.h as the table, the member `SparseCapacity` in SparseArray.h as the capacity, and `valueSrc` in
-- DArray.h as the parameter `value`. Three more methods do not compile and are read as meant, and no
-- result rests on them: the `Resize` of DArray.h calls ArenaPush without the arena and is read as
-- asking for a block of the new capacity; the `Init` of SparseArray.h passes the type `Arena` and is
-- read as passing its parameter; and the `Get` of Pool.h returns an undeclared `res` for a full pool
-- and is read as returning null. The `Init` of Pool.h is taken to get a block of that many cells.
pub mod Prelude
pub mod Base
pub mod HashMaps
pub mod BHeap
pub mod DArray
pub mod StaticArray
pub mod Arena
pub mod Handles
pub mod BitMap
pub mod Pool
pub mod SparseArray
pub mod String
pub mod QueueThreaded
pub mod Jobs
pub mod StringHashMap
pub mod Vec2i
