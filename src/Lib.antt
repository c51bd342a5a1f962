-- ===== src/Lib.antt =====
-- EonOS, a hobby kernel for x86-64 in Rust, modelled component by component. Paths are those of the
-- repository.
--
-- The parts and how they interact: the frame allocator (src/pmm.rs) hands physical frames to the
-- kernel heap (src/heap.rs), to the stacks of the scheduler's threads (src/scheduler.rs) and to the
-- loader (src/elf.rs); a process (src/process.rs) is a thread with an address space, whose initial
-- stack the process module builds and whose exit status it keeps; partitions (src/partition.rs) are
-- found on block devices (src/block.rs) and opened as block devices; the virtual file system
-- (src/vfs.rs) leads a path to the volume that is mounted there, a FAT32 volume (src/fat32.rs) on a
-- block device. Page tables (src/vmm.rs) take their frames from the frame allocator and give each
-- process its address space.
--
-- Prelude.antt: shared names, Boolean tests, lists over native numbers, the operations of Rust's
-- `Vec` (Prelude/Vec), `Result` (Prelude/Results), little-endian numbers (Prelude/Bytes).
-- Pmm.antt models src/pmm.rs: `Pmm` is the state, `alloc_one`, `alloc_contiguous` (`alloc_frames`
-- for the function of that name outside the type) and `free` its operations; Pmm/Bits the bitmap.
-- Blocking.antt models src/blocking.rs: a call that may block is its rounds, each a function,
-- and the end of a lock or of a permit is two functions, between which other threads may run; the
-- histories of Blocking/Exclusion say who does what when, once the scheduler runs.
-- Heap.antt models src/heap.rs: a free list is the list of its blocks in the order of the `next`
-- pointers; `insert`, `find_and_remove`, `grow`, `alloc`, `dealloc` have their names. `grow` takes
-- its frames from Pmm and maps them with `map_page` of Vmm, which takes frames from Pmm too.
-- Scheduler.antt models `reschedule` and what it calls, src/scheduler.rs; Scheduler/Slots the rest
-- of that file. `Kernel` holds the statics of the file and the wait queues, by number. Time is an
-- argument. Scheduler/History composes all operations into histories.
-- Process.antt models the process table and `build_stack` of src/process.rs.
-- Elf.antt models `parse` of src/elf.rs, its stages as functions of their own.
-- Block.antt models src/block.rs: the trait is a record of operations on a state, and
-- Block/Laws states what clients rely on.
-- Partition.antt models src/partition.rs on any such record.
-- Vmm.antt models src/vmm.rs: `Mem` is the physical memory, the page tables and the other frames; the
-- functions have their names, with the pointer to a table as its physical address. Vmm/Leaf has
-- the operations on one page (`AddressSpace` in Vmm/Leaf/Space), Vmm/User the user memory,
-- Vmm/Create the address spaces, Vmm/Boot the tables of the kernel. Frames come from Pmm. Vmm/Tree
-- says when tables form a tree.
-- Fat32.antt models src/fat32.rs on a block device of Block: mounting, the table, chains; Fat32/Write
-- the functions that write. They keep their names.
-- Vfs.antt models the paths of src/vfs.rs, Vfs/Inside says when a path lies in a mount, Vfs/Mounts its mount table and the operations by path, on
-- an interface of what src/fat32.rs and src/initramfs.rs offer.
--
-- Machine words are native numbers with the overflow checks of the source written out; each file
-- says which sums cannot overflow. Loops are structural recursion but for some, which have fuel:
-- `wake_loop` with the number of sleepers, since each round drops a sleeper or passes one,
-- `map_pages`, `map_section_pages` and `map_mmio_pages` with the number of pages and one more, the
-- loops over user memory with the number of bytes and one more, since a round takes at least one.
-- `map_hhdm_range` and `write_chain_range` take their fuel as an argument; the number of bytes is
-- enough for the second.
--
-- Not modelled: assembly, device registers, logging, and the self-tests of the kernel. `unsafe`
-- pointer code is modelled by what it stores; that the compiler respects this is not shown. The
-- bytes of a frame and its entries as a page table are two fields of `Mem`: a frame that is allocated
-- zeroed is zero in both, and afterwards a frame is used as one or the other, so a process that has a
-- page table among its own pages is outside the model. TLBs are not modelled.
pub mod Prelude
pub mod Pmm
pub mod Heap
pub mod Scheduler
pub mod Process
pub mod Elf
pub mod Block
pub mod Partition
pub mod Vfs
pub mod Blocking
pub mod Vmm
pub mod Fat32
