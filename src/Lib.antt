-- ===== src/Lib.antt =====
-- ACDC, a configurable benchmark of memory allocators. Each of its threads makes classes of objects with
-- one size and one lifetime, accesses the live ones, and frees the expired ones, as its clock, which
-- counts allocated bytes, advances. The definitions have the source's names; get_LSClass is spelled
-- get_ls_class, and get_LSCNode get_lsc_node.
--
-- The parts, and where they are modelled:
--   Types            src/acdc.h, src/caches.h: options, statistics, nodes, classes, contexts
--   SizeClass        src/memory.c: get_sizeclass
--   Distribution     src/distribution.c: the random numbers of a thread and what is drawn from them
--   LifetimeClass    src/lifetime-class.c: doubly-linked lists of nodes
--   Store            src/memory.c, src/alloc/nulloc.c: the memory of the objects
--   Objects          src/lifetime-size-classes.c: lists and trees of objects, built, written and freed
--   Classes          src/lifetime-size-classes.c: the classes that own the objects
--   Mutator          src/acdc.c, src/lifetime-size-classes.c: the state of a thread, the pools of nodes
--                    and classes
--   HeapClass        src/acdc.c: the cyclic arrays of lifetime-classes: insertion, sharing, expiry, and the
--                    classes that come from other threads
--   MemoryStats      src/acdc.c: the samples of the memory, from the files of ProcStatus
--   Thread           src/acdc.c: the loop of a thread; its modules say what a round keeps and moves
--   RunAcdc          src/acdc.c: the whole run, the sums of the results and the averages
--   Context          src/acdc.c: the creation of a thread's context
--   MetadataHeap     src/metadata-allocator.c: the bump allocator of all metadata
--   ProcStatus       src/proc-status.c: what the operating system reports of the process
--   Barrier          what a barrier promises, the specification of the next two
--   SpinBarrier      src/barrier.c: the spinning barrier, as a step relation of any number of threads
--   OsxBarrier       src/osx-barrier.c: the barrier for OS X, likewise, without and with spurious
--                    wake-ups of its condition variable
--   Options          src/main.c: the options and their checks; its module Detection: the sizes of the
--                    metadata, when they are not given
--   Main             src/main.c: the program, from the command line to the report
--   Base, Examples   what the modules share, and the theorems at concrete inputs
--
-- A thread's round (Thread) draws the properties of a class (Distribution), takes a class from its pool
-- (Mutator), builds the objects (Classes, Objects) in the memory under test (Store), and puts the class
-- into its own heap class or into those of other threads (HeapClass), whose lists are those of
-- LifetimeClass. Contexts, pools and heap classes live in the metadata heap.
--
-- Stateful functions are commands of a state and failure monad (Base.Run). Undefined behaviour, failed
-- assertions and calls of exit are failures of their own. Loops over linked structures run on fuel:
-- one more than the number of objects of a class, and one more than the number of nodes of all threads
-- for a lifetime-class. The loop of a thread takes no fuel above its duration times the quantum: each
-- round allocates a byte at least, so that it uses up a byte of the quantum or advances the time.
--
-- The allocator under test is not part of the program: the addresses that malloc returns are a list in
-- the state, and it returns NULL when the list is empty; a list in which they are different and not
-- NULL is a hypothesis where it matters. The store records the size that was asked for each block; the
-- link words of an object and its other bytes are two maps, since all writes of bytes start behind the
-- links. The results of mmap, the files in which the operating system reports on the process, and what
-- the threads of a run do together are arguments. So is the arithmetic of doubles, of which exact
-- fractions are an instance (Base.Double). Addresses and loop counters are natural numbers, and int
-- loop counters are taken to stay below 2^31; unsigned words wrap where the source can reach their
-- end. Nodes and classes are cache lines of 64 bytes whose first words have two readings, as the
-- source casts one to the other.
--
-- The clock of the processor (src/arch.h) is a function in the state of a thread: what each of its
-- readings will show.
--
-- Not modelled: all printing, the creation of threads and mutexes (a section under a lock is one step),
-- the logarithm of the C library beyond the sizes for which it is exact, negative numbers for options
-- that are counts, what is commented out in the source (the objects for false sharing, the aligned
-- allocation), and two helpers without a caller (fgets_nn, round_up_to).
pub mod Base
pub mod Types
pub mod SizeClass
pub mod Distribution
pub mod LifetimeClass
pub mod MetadataHeap
pub mod ProcStatus
pub mod Barrier
pub mod OsxBarrier
pub mod SpinBarrier
pub mod Store
pub mod Objects
pub mod Mutator
pub mod Classes
pub mod HeapClass
pub mod MemoryStats
pub mod Thread
pub mod RunAcdc
pub mod Main
pub mod Options
pub mod Context
pub mod Examples
