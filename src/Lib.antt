-- ===== src/Lib.antt =====
-- AEOS, an operating system kernel in C: models of its kernel core and what they satisfy.
--
-- The kernel is one address space of static tables. The timer interrupt advances the scheduler's
-- clock; tasks give the processor back by yielding; message queues, locks and files are calls on
-- tables that interrupts do not enter, since each call masks them. Every model is explicit state
-- passing: an operation takes the state and returns the C result with the new state.
--
-- Parts of the program and the modules that model them:
--   Base    C arrays as lists, searches, ring buffers, unsigned wrap-around, `int` results.
--   Ipc     kernel/ipc.c: eight queues of sixteen messages. `create`, `send`, `recv` and `destroy`
--           are ipc_create, ipc_send, ipc_recv and ipc_destroy; a queue is its ring with head, tail
--           and count. Spec has bounded first-in first-out channels, Refine and Calls compare.
--   Sched   kernel/sched.c: sixteen task slots. `yield_cpu`, `exit` and `kill` are sched_yield,
--           sched_exit and the killing of a flagged task; Setup has sched_init, sched_spawn and the
--           accessors, Tick has sched_on_tick. cpu_switch_to saves one register file and loads
--           another; an address space is a number.
--   Sync    kernel/sync.c: mutexes and counting semaphores. Each operation that masks interrupts is
--           one step; a blocking loop takes what other tasks do at each of its yields as a list.
--   Pmm     boot/aarch64/pmm.c: the bitmap of 32768 page frames and the count of free ones.
--   Heap    boot/aarch64/heap.c: the bump pointer, with 64-bit wrap-around.
--   Ramfs   kernel/ramfs.c: 32 files of 4 KiB, found by name; a name is the memory at its pointer.
--   Log     kernel/log.c: the formatter `vsnprintf_simple`, whose buffer is the list written so far,
--           and in Ring the 64 entries with their counters, which Recent compares with the list of
--           all messages kept; `write` and `dump` are log_write and log_dump without their printing.
--   Vmm     boot/aarch64/vmm.c: the page tables as words of a memory, built by vmm_init, as_create
--           and as_map_block and walked by vmm_get_phys; frames come from Pmm. Attributes are below
--           2 ^ 21; the registers and the flushes are left out.
--   Dtb     boot/aarch64/loader.c: Memory and Uart have the two readers of the device tree, Loader
--           the checks and the boot information of kernel/bootinfo.h. Memory is a function of the
--           address; the readers' loop runs on fuel, one round for each word of the structure
--           block and one more, which Walk shows to be enough.
--   Fp      kernel/fp.h: Q16.16 numbers as integers with the 32-bit wrap-around.
--   Ai      the decision engine. Core has the network of kernel/ai_core.c, Learn the Q table of
--           kernel/ai_learn.c, Debug the issues and fixes of kernel/ai_debug.c, Cmt the second network
--           of kernel/cmt_core.c and kernel/cmt_api.c, and Engine the tick of kernel/ai_api.c, which
--           runs the others in the order of the code. What the tick reads of the heap and the frames
--           is its argument.
--   Afs     kernel/afs.c: the file system on disk, over a block device that is a parameter. Table has
--           the directory and the free extents, and Afs the calls; Counts, Space, Alloc, Files,
--           Slots and Writes lead to the ownership of sectors in Disjoint.
--   Proc    kernel/proc.c: the table of processes, their descriptors, exit and wait. `wait_round` is
--           one round of proc_wait; what other modules answer to proc_spawn_image is its argument.
--   Device  kernel/device.c: the table of pointers to devices; `open_by` is device_open. The calls of
--           the drivers' open and close functions are recorded, and what the others answer is a
--           parameter.
--   Syscall kernel/syscall.c: is_user_ptr and syscall_dispatch, which calls the operations of Proc,
--           Ramfs, Ipc and Device on one kernel state with a memory of bytes. The test of pointers
--           admits all RAM, so a call can store into the kernel's own tables; that is an outcome of
--           its own, after which nothing is followed.
--   Net     kernel/net.c: checksum, frames received and sent, and dotted addresses. A frame is a
--           list of bytes; the address of the card is a parameter.
--
-- Integers are natural numbers with the width's wrap-around written out, except where a comment
-- bounds them. Loops over tables are structural, their lengths being constants of the source; the
-- copying loop of afs_read runs on fuel that is shown to be enough. Blocks of memory are lists; a
-- read outside yields a default, and the theorems bound the index where it matters.
--
-- Not modelled: printing, device registers, assembly, the x86 ports, and the parts of the kernel
-- that are no module here (the shell, the start-up, the network's
-- ping loop). Pointers between the modules are indices into their tables.
pub mod Base
pub mod Ipc
pub mod Sched
pub mod Sync
pub mod Afs
pub mod Ai
pub mod Device
pub mod Dtb
pub mod Fp
pub mod Heap
pub mod Log
pub mod Net
pub mod Pmm
pub mod Proc
pub mod Ramfs
pub mod Syscall
pub mod Vmm
