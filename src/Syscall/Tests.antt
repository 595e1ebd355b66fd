-- ===== src/Syscall/Tests.antt =====
-- A kernel with one message waiting, and instances of the theorems about the system calls of
-- kernel/syscall.c.
use aeos.Proc.{zero_process}
use aeos.Base.{zero, suc, get_or, ◌≤◌, Bool, inr, leb, ◌&&◌, ltb}
use aeos.Ipc.Valid.{send-TableValid, create-TableValid, boot-TableValid}
use aeos.Ramfs.{zero_file}
use aeos.Proc.Calls.{start-IsValid}
use aeos.Ipc.{Queue, create, zero_queue, send}
use aeos.Syscall.{Regs, Kernel, dispatch}
use aeos.Syscall.Stores.{Confined, Bounded, dispatch-Confined}
use aeos.Syscall.Valid.{IsValid, Keeps, dispatch-Keeps, TablesLow, UserRegs}
use aeos.Base.{
  Option, List, ℕ, pos, arith, replicate, length-replicate, some, ◌∷◌, negsuc, [], All-replicate,
}
use aeos.Device.{Drivers, blank}
use aeos.Proc
use aeos.Device
use aeos.Ramfs.Valid as Files
use aeos.Device.Valid as DevValid

-- A queue of the task 7 that holds a message of three bytes from the task 9
abbrev opened : List Queue
opened = (create (replicate 8 zero_queue) 7).1

abbrev letter : Option (List ℕ)
letter = some (72 ∷ 105 ∷ 33 ∷ [])

abbrev kernel : Kernel
kernel = record {
  procs = Proc.start;
  files = record { files = replicate 32 zero_file; file_count = 0 };
  queues = (send opened (pos 0) letter 3 9).1;
  devices = Device.init (record { table = []; count = 0; store = blank ∷ []; callbacks = [] });
  memory = λ a. 0;
}

null : (n j : ℕ) → get_or (replicate n 0) j 0 ≤ 1
null zero j = omega arith
null (suc n) zero = omega arith
null (suc n) (suc j) = null n j

null_of : (i j : ℕ) → get_or (get_or (replicate 8 zero_process) i zero_process).fd_table j 0 ≤ 1
null_of i j = blank_of 8 i j
  where
    blank_of :
        (n i j : ℕ) → get_or (get_or (replicate n zero_process) i zero_process).fd_table j 0 ≤ 1
    blank_of zero i j = null 8 j
    blank_of (suc n) zero j = null 8 j
    blank_of (suc n) (suc i) j = blank_of n i j

kernel-IsValid : IsValid kernel
kernel-IsValid = record {
  procs_valid = start-IsValid;
  files_valid = (
    length-replicate 32 zero_file,
    All-replicate Files.IsFile 32 zero_file Files.zero_file-IsFile,
  );
  queues_valid =
      send-TableValid opened (create-TableValid (replicate 8 zero_queue) boot-TableValid 7) (pos 0)
        letter 3 9 (omega arith);
  devices_valid =
      DevValid.init-IsValid (record { table = []; count = 0; store = blank ∷ []; callbacks = [] });
  fds_valid = record { of_kernel = λ j. null 8 j; of_process = λ i b j. null_of i j };
}

-- A driver that reads zeros
abbrev zeros : Drivers
zeros = record {
  on_read = λ dev len. (pos len, replicate len 0);
  on_write = λ dev bytes. pos 0;
  on_ioctl = λ dev cmd arg. negsuc 0;
}

zeros-Bounded : Bounded zeros
zeros-Bounded dev len = omega (arith, length-replicate {A = ℕ} len 0)

-- Receive from queue 0 into user memory, with both lengths asked for
abbrev receive : Regs
receive = record { x0 = 0; x1 = 0x8000000100; x2 = 0x8000000200; x3 = 0x8000000300; x8 = 18 }

-- Tables somewhere in the kernel's part of the RAM
abbrev bss : ℕ → Bool
bss a = leb 0x400a0000 a && ltb a 0x40200000

bss-TablesLow : TablesLow bss
bss-TablesLow a above = ground (arith, above)

receive-UserRegs : UserRegs receive
receive-UserRegs = record {
  on_read = λ e. inr (omega arith);
  on_wait = λ e. inr (omega arith);
  on_recv = λ e. (inr (omega arith), (inr (omega arith), inr (omega arith)));
}

dispatch-Keeps_example : Keeps (dispatch bss zeros 0 5 receive kernel)
dispatch-Keeps_example =
    dispatch-Keeps bss zeros 0 5 receive kernel bss-TablesLow receive-UserRegs kernel-IsValid

dispatch-Confined_example : Confined kernel.memory (dispatch bss zeros 0 5 receive kernel)
dispatch-Confined_example =
    dispatch-Confined bss zeros 0 5 receive kernel zeros-Bounded
      (omega arith, (omega arith, omega arith)) kernel-IsValid.queues_valid
