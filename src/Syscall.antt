-- ===== src/Syscall.antt =====
use aeos.Pmm.{ram_start, ram_end}
use aeos.Ramfs.{to_int, Ramfs}
use aeos.Device.{Drivers, Devices, open_by, ioctl}
use aeos.Proc.{
  Round, missing, yields, Processes, fd_alloc, getpid, reaped, wait_round, fd_close, fd_get,
}
use aeos.Ipc.{Out, Queue}
use aeos.Dtb.{Bytes, strlen_from}
use aeos.Base.{
  ℤ, Option, ℕ, if◌then◌else◌, ◌==◌, ltb, ◌^◌, not, List, ◌%◌, some, Bool, [], none, leb, ◌&&◌, ◌∷◌,
  ◌-◌, false, ◌/◌, ◌||◌, add64, ◌+◌, length, get_or, true, pos, suc, negsuc, zero,
}
use aeos.Proc
use aeos.Ramfs
use aeos.Ipc
use aeos.Device
pub mod Valid
pub mod Stores
mod Tests

-- The system calls of kernel/syscall.c: the test of user pointers and the dispatch, over the process
-- table, the files, the queues, the devices and the memory. Memory is a function of the address;
-- what the scheduler does when a call gives the processor up is not followed here, and printing is left out.
-- The test of user pointers admits all RAM, so a call can store into the kernel's own tables too, whose
-- addresses the linker sets: such a store is an outcome of its own, with the memory that the call would
-- leave with its tables intact, and what the tables hold after it is not followed. Nor is it followed
-- that the addresses of user memory lead to frames which the RAM has at addresses of its own.

-- What the calls reach of the kernel
pub record Kernel : Type 0 where
  pub procs : Processes
  pub files : Ramfs
  pub queues : List Queue
  pub devices : Devices
  pub memory : Bytes

-- The registers that a call reads, as 64-bit words
pub record Regs : Type 0 where
  pub x0 : ℕ
  pub x1 : ℕ
  pub x2 : ℕ
  pub x3 : ℕ
  pub x8 : ℕ

-- What comes of a call: x0 and the kernel after it, the memory after a store into the kernel's own tables, the end of the task, a yield that leaves x0, or a yield within proc_wait, which then looks again
pub data Outcome : Type 0 where
  returns : ℕ → Kernel → Outcome
  overwrites : Bytes → Outcome
  exits : Kernel → Outcome
  gives_up : Outcome
  waits : Outcome

abbrev pub user_va_base : ℕ
user_va_base = 0x8000000000

abbrev pub user_va_stack : ℕ
user_va_stack = 0x8000200000

-- `is_user_ptr`
unfoldable pub is_user_ptr : ℕ → ℕ → Bool
is_user_ptr addr len =
    if addr == 0
    then false
    else if ltb (add64 addr len) addr
    then false
    else if leb ram_start addr && leb (add64 addr len) ram_end
    then true
    else if leb user_va_base addr && leb (add64 addr len) user_va_stack
    then true
    else false

-- The conversions of a register to `uint32_t` and to `int`, and of an `int` to a register
abbrev pub u32 : ℕ → ℕ
u32 x = x % 2 ^ 32

abbrev pub int_of : ℕ → ℤ
int_of x = to_int (u32 x)

abbrev pub reg_of : ℤ → ℕ
reg_of (pos n) = n % 2 ^ 64
reg_of (negsuc n) = 2 ^ 64 - 1 - n % 2 ^ 64

-- `(uint64_t)-1`
abbrev pub fault : ℕ
fault = 2 ^ 64 - 1

abbrev pub bytes_at : Bytes → ℕ → ℕ → List ℕ
bytes_at memory a zero = []
bytes_at memory a (suc n) = memory a ∷ bytes_at memory (a + 1) n

-- Bytes stored at an address
unfoldable pub store : Bytes → ℕ → List ℕ → Bytes
store memory p bytes a =
    if leb p a && ltb a (p + length bytes) then get_or bytes (a - p) 0 else memory a

abbrev pub word_bytes : ℕ → List ℕ
word_bytes w = w % 256 ∷ w / 256 % 256 ∷ w / 65536 % 256 ∷ w / 16777216 % 256 ∷ []

-- Whether any of the n addresses from p is of the kernel's own tables
unfoldable pub hits : (ℕ → Bool) → ℕ → ℕ → Bool
hits tables p zero = false
hits tables p (suc n) = tables p || hits tables (p + 1) n

-- A word that is stored unless its pointer is null
abbrev pub word_hits : (ℕ → Bool) → ℕ → Bool
word_hits tables p = not (p == 0) && hits tables p 4

abbrev pub unless_hit : Bool → ℕ → Kernel → Outcome
unless_hit hit x k = if hit then overwrites k.memory else returns x k

-- `SYS_PRINT`
abbrev pub sys_print : Regs → Kernel → Outcome
sys_print r k =
    if not (leb 0x40000000 r.x0 || (leb user_va_base r.x0 && ltb r.x0 user_va_stack))
    then returns fault k
    else returns (strlen_from k.memory r.x0 256) k

-- `SYS_EXIT`
abbrev pub sys_exit : ℕ → Regs → Kernel → Outcome
sys_exit task r k = exits (record k { procs = Proc.exit k.procs task (u32 r.x0) })

-- `SYS_WAITPID`
abbrev pub sys_waited : (ℕ → Bool) → Regs → Kernel → ℕ → Round → Outcome
sys_waited tables r k pid missing = returns fault k
sys_waited tables r k pid yields = waits
sys_waited tables r k pid (reaped code t procs) =
    let k' : Kernel = record k { procs = procs } in
    if leb (2 ^ 31) pid || r.x1 == 0
    then returns (reg_of (to_int pid)) k'
    else if not (is_user_ptr r.x1 4)
    then returns fault k'
    else unless_hit (hits tables r.x1 4) (reg_of (to_int pid))
        (record k' { memory = store k.memory r.x1 (word_bytes code) })

abbrev pub sys_waitpid : (ℕ → Bool) → Regs → Kernel → ℕ → Outcome
sys_waitpid tables r k pid = sys_waited tables r k pid (wait_round k.procs pid)

-- `SYS_OPEN`
abbrev pub fd_result : Option ℕ → ℕ
fd_result none = fault
fd_result (some fd) = fd

abbrev pub sys_opened : ℕ → Kernel → ℕ × Devices → Outcome
sys_opened task k (dev, devices) =
    let k' : Kernel = record k { devices = devices } in
    let (fd, procs) = fd_alloc k.procs task dev in
    if dev == 0 then returns fault k' else returns (fd_result fd) (record k' { procs = procs })

abbrev pub sys_open : ℕ → Regs → Kernel → Outcome
sys_open task r k =
    if not (is_user_ptr r.x0 1)
    then returns fault k
    else sys_opened task k (open_by k.devices (bytes_at k.memory r.x0 16))

-- `SYS_CLOSE`
abbrev pub sys_close : ℕ → Kernel → ℤ → Outcome
sys_close task k (negsuc n) = returns 0 k
sys_close task k (pos fd) = returns 0 (record k { procs = fd_close k.procs task fd })

-- `proc_fd_get` of an `int`
abbrev pub dev_of : ℕ → Kernel → ℤ → ℕ
dev_of task k (negsuc n) = 0
dev_of task k (pos fd) = fd_get k.procs task fd

-- `SYS_READ`, `SYS_WRITE` and `SYS_IOCTL`
abbrev pub sys_filled : (ℕ → Bool) → Regs → Kernel → ℤ × List ℕ → Outcome
sys_filled tables r k (n, bytes) =
    unless_hit (hits tables r.x1 (length bytes)) (reg_of n)
      (record k { memory = store k.memory r.x1 bytes })

abbrev pub sys_read : (ℕ → Bool) → Drivers → ℕ → Regs → Kernel → Outcome
sys_read tables drv task r k =
    let dev = dev_of task k (int_of r.x0) in
    if not (is_user_ptr r.x1 (u32 r.x2))
    then returns fault k
    else if dev == 0
    then returns fault k
    else sys_filled tables r k (Device.read drv k.devices dev (u32 r.x2))

abbrev pub sys_write : Drivers → ℕ → Regs → Kernel → Outcome
sys_write drv task r k =
    let dev = dev_of task k (int_of r.x0) in
    if not (is_user_ptr r.x1 (u32 r.x2))
    then returns fault k
    else if dev == 0
    then returns fault k
    else returns (reg_of (Device.write drv k.devices dev (bytes_at k.memory r.x1 (u32 r.x2)))) k

abbrev pub sys_ioctl : Drivers → ℕ → Regs → Kernel → Outcome
sys_ioctl drv task r k =
    let dev = dev_of task k (int_of r.x0) in
    if dev == 0
    then returns fault k
    else returns (reg_of (ioctl drv k.devices dev (u32 r.x1) (u32 r.x2))) k

-- `SYS_CREATE` and `SYS_DELETE`
abbrev pub with_files : Kernel → ℤ × Ramfs → Outcome
with_files k (n, files) = returns (reg_of n) (record k { files = files })

abbrev pub sys_create : Regs → Kernel → Outcome
sys_create r k =
    if not (is_user_ptr r.x0 1)
    then returns fault k
    else with_files k (Ramfs.create k.files (bytes_at k.memory r.x0 16))

abbrev pub sys_delete : Regs → Kernel → Outcome
sys_delete r k =
    if not (is_user_ptr r.x0 1)
    then returns fault k
    else with_files k (Ramfs.delete k.files (bytes_at k.memory r.x0 16))

-- `SYS_IPC_CREATE`, `SYS_IPC_SEND`, `SYS_IPC_RECV` and `SYS_IPC_DESTROY`
abbrev pub with_queues : Kernel → ℤ × List Queue → Outcome
with_queues k (n, queues) = returns (reg_of n) (record k { queues = queues })

abbrev pub sys_ipc_create : Regs → Kernel → Outcome
sys_ipc_create r k = with_queues k (Ipc.create k.queues (u32 r.x0))

-- The data at a pointer, of which ipc_send reads at most 64 bytes
abbrev pub data_at : Bytes → ℕ → Option (List ℕ)
data_at memory p = if p == 0 then none else some (bytes_at memory p 64)

abbrev pub sys_ipc_send : Regs → Kernel → Outcome
sys_ipc_send r k =
    if ltb 0 (u32 r.x2) && not (is_user_ptr r.x1 (u32 r.x2))
    then returns fault k
    else with_queues k
        (Ipc.send k.queues (int_of r.x0) (data_at k.memory r.x1) (u32 r.x2) (u32 r.x3))

-- An output that is asked for unless its pointer is null
abbrev pub wanted : ℕ → Option ℕ
wanted p = if p == 0 then none else some 0

abbrev pub stored_word : Bytes → ℕ → Option ℕ → Bytes
stored_word memory p none = memory
stored_word memory p (some w) = store memory p (word_bytes w)

abbrev pub stored_bytes : Bytes → ℕ → Option (List ℕ) → Bytes
stored_bytes memory p none = memory
stored_bytes memory p (some bytes) = store memory p bytes

-- What ipc_recv stores, in its order, when it succeeds
abbrev pub received : (ℕ → Bool) → Regs → Kernel → ℤ × Out × List Queue → Outcome
received tables r k (negsuc n, out, queues) =
    returns (reg_of (negsuc n)) (record k { queues = queues })
received tables r k (pos n, out, queues) =
    let filled = stored_bytes k.memory r.x1 out.buf in
    let sized = stored_word filled r.x2 out.len in
    unless_hit (hits tables r.x1 64 || (word_hits tables r.x2 || word_hits tables r.x3))
      (reg_of (pos n)) (record k { queues = queues; memory = stored_word sized r.x3 out.sender })

abbrev pub out_of : Regs → Kernel → Out
out_of r k = record {
  buf = some (bytes_at k.memory r.x1 64);
  len = wanted r.x2;
  sender = wanted r.x3;
}

abbrev pub sys_ipc_recv : (ℕ → Bool) → Regs → Kernel → Outcome
sys_ipc_recv tables r k =
    if not (is_user_ptr r.x1 64)
    then returns fault k
    else if not (r.x2 == 0) && not (is_user_ptr r.x2 4)
    then returns fault k
    else if not (r.x3 == 0) && not (is_user_ptr r.x3 4)
    then returns fault k
    else received tables r k (Ipc.recv k.queues (int_of r.x0) (out_of r k))

abbrev pub sys_ipc_destroy : Regs → Kernel → Outcome
sys_ipc_destroy r k = with_queues k (Ipc.destroy k.queues (int_of r.x0))

-- `syscall_dispatch` for the running task, at a number of ticks, of a kernel whose own tables stand at the given addresses
unfoldable pub dispatch : (ℕ → Bool) → Drivers → ℕ → ℕ → Regs → Kernel → Outcome
dispatch tables drv task ticks r k =
    if r.x8 == 1
    then sys_print r k
    else if r.x8 == 2
    then returns ticks k
    else if r.x8 == 3
    then gives_up
    else if r.x8 == 4
    then sys_exit task r k
    else if r.x8 == 20
    then returns (reg_of (to_int (getpid k.procs task))) k
    else if r.x8 == 21
    then sys_waitpid tables r k (u32 r.x0)
    else if r.x8 == 7
    then sys_open task r k
    else if r.x8 == 8
    then sys_close task k (int_of r.x0)
    else if r.x8 == 5
    then sys_read tables drv task r k
    else if r.x8 == 6
    then sys_write drv task r k
    else if r.x8 == 9
    then sys_ioctl drv task r k
    else if r.x8 == 10
    then sys_create r k
    else if r.x8 == 11
    then sys_delete r k
    else if r.x8 == 15
    then returns 0 k
    else if r.x8 == 16
    then sys_ipc_create r k
    else if r.x8 == 17
    then sys_ipc_send r k
    else if r.x8 == 18
    then sys_ipc_recv tables r k
    else if r.x8 == 19
    then sys_ipc_destroy r k
    else returns fault k
