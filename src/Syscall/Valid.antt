-- ===== src/Syscall/Valid.antt =====
-- The system calls of kernel/syscall.c keep what each component of the kernel relies on.
use aeos.Proc.Fds.{Fds, exit-Fds, fd_close-Fds, wait_round-Fds, fd_alloc-Fds}
use aeos.Device.Valid.{open_by-IsValid, length-open_by, open_by-le}
use aeos.Ramfs.Valid.{delete-IsValid, create-IsValid}
use aeos.Proc.Calls.{after, fd_alloc-IsValid, wait_round-IsValid, fd_close-IsValid, exit-IsValid}
use aeos.Ipc.{Queue, Out, recv}
use aeos.Device.{Drivers, Devices, open_by}
use aeos.Ramfs.{Ramfs}
use aeos.Ipc.Valid.{
  TableValid, Holds, clipped, send-TableValid, recv-TableValid, create-TableValid,
  destroy-TableValid,
}
use aeos.Proc.{Round, Processes, reaped, missing, yields, fd_alloc}
use aeos.Dtb.{Bytes}
use aeos.Base.{
  Bool, ◌≡◌, List, ℕ, ℤ, not, length, ltb, true, false, ◌==◌, ◌&&◌, if◌then◌else◌, if_ind, Option,
  arith, suc, negsuc, ap, pos, ◌+◌, zero, refl, leb, ◌||◌, ◌⊎◌, ◌≤◌, ==_iff, inl, inr, ◌^◌,
}
use aeos.Syscall.{
  waits, Outcome, Regs, dispatch, Kernel, sys_delete, sys_create, sys_ipc_recv, sys_ipc_send,
  sys_close, sys_open, sys_read, sys_waitpid, sys_write, is_user_ptr, u32, received, data_at,
  bytes_at, dev_of, sys_waited, int_of, out_of, returns, exits, gives_up, sys_print, user_va_base,
  user_va_stack, word_hits, unless_hit, hits, overwrites,
}
use aeos.Proc.Pids
use aeos.Ramfs.Valid as Files
use aeos.Device.Valid as DevValid

-- The invariants of the components, and that every descriptor is null or points to a device
pub record IsValid (k : Kernel) : Type 0 where
  pub procs_valid : Pids.IsValid k.procs
  pub files_valid : Files.IsValid k.files
  pub queues_valid : TableValid k.queues
  pub devices_valid : DevValid.IsValid k.devices
  pub fds_valid : Fds (length k.devices.store) k.procs

-- Whatever comes of a call, the kernel's own tables are not stored into, and the kernel after it is valid.
abbrev pub Keeps : Outcome → Type 0
Keeps (returns x k) = IsValid k
Keeps (overwrites m) = ⊥
Keeps (exits k) = IsValid k
Keeps gives_up = Unit
Keeps waits = Unit

branches :
    (b : Bool) (x y : Outcome)
    → (b ≡ true → Keeps x)
    → (b ≡ false → Keeps y)
    → Keeps (if b then x else y)
branches b x y f g = if_ind Keeps b x y f g

-- The kernel's own tables stand below the window of user memory.
abbrev pub TablesLow : (ℕ → Bool) → Type 0
TablesLow tables = (a : ℕ) → user_va_base ≤ a → tables a ≡ false

-- A pointer is null or of user memory.
abbrev pub InUser : ℕ → Type 0
InUser p = (p ≡ 0) ⊎ (user_va_base ≤ p)

-- The registers that a call stores through are null or of user memory.
pub record UserRegs (r : Regs) : Type 0 where
  pub on_read : r.x8 ≡ 5 → InUser r.x1
  pub on_wait : r.x8 ≡ 21 → InUser r.x1
  pub on_recv : r.x8 ≡ 18 → InUser r.x1 × (InUser r.x2 × InUser r.x3)

module _ (tables : ℕ → Bool) (low : TablesLow tables) where
  hits_above : (n p : ℕ) → user_va_base ≤ p → hits tables p n ≡ false
  unfolding hits
  hits_above zero p above = refl
  hits_above (suc n) p above = rw (low p above) (hits_above n (p + 1) (omega (arith, above)))

  hits_user : (p len n : ℕ) → InUser p → is_user_ptr p len ≡ true → hits tables p n ≡ false
  unfolding is_user_ptr
  hits_user p len n (inl null) ok = absurd (ground (arith, null, ok))
  hits_user p len n (inr above) ok = hits_above n p above

  word_hits_user : (p : ℕ) → InUser p → word_hits tables p ≡ false
  word_hits_user p (inl null) = rw null refl
  word_hits_user p (inr above) = ground (arith, hits_above 4 p above)

unless_hit-Keeps :
    (hit : Bool) (x : ℕ) (k : Kernel) → hit ≡ false → IsValid k → Keeps (unless_hit hit x k)
unless_hit-Keeps hit x k miss v = rw miss v

module _ (k : Kernel) (v : IsValid k) where
  with_procs :
      (procs : Processes)
      → Pids.IsValid procs
      → Fds (length k.devices.store) procs
      → IsValid (record k { procs = procs })
  with_procs procs p f = record {
    procs_valid = p;
    files_valid = v.files_valid;
    queues_valid = v.queues_valid;
    devices_valid = v.devices_valid;
    fds_valid = f;
  }

  with_memory : (memory : Bytes) → IsValid (record k { memory = memory })
  with_memory memory = record {
    procs_valid = v.procs_valid;
    files_valid = v.files_valid;
    queues_valid = v.queues_valid;
    devices_valid = v.devices_valid;
    fds_valid = v.fds_valid;
  }

  with_ramfs : (files : Ramfs) → Files.IsValid files → IsValid (record k { files = files })
  with_ramfs files p = record {
    procs_valid = v.procs_valid;
    files_valid = p;
    queues_valid = v.queues_valid;
    devices_valid = v.devices_valid;
    fds_valid = v.fds_valid;
  }

  with_table : (queues : List Queue) → TableValid queues → IsValid (record k { queues = queues })
  with_table queues p = record {
    procs_valid = v.procs_valid;
    files_valid = v.files_valid;
    queues_valid = p;
    devices_valid = v.devices_valid;
    fds_valid = v.fds_valid;
  }

  with_devices :
      (devices : Devices)
      → DevValid.IsValid devices
      → length devices.store ≡ length k.devices.store
      → IsValid (record k { devices = devices })
  with_devices devices p same = record {
    procs_valid = v.procs_valid;
    files_valid = v.files_valid;
    queues_valid = v.queues_valid;
    devices_valid = p;
    fds_valid = rw same v.fds_valid;
  }

pub length-bytes_at : (memory : Bytes) (a n : ℕ) → length (bytes_at memory a n) ≡ n
length-bytes_at memory a zero = refl
length-bytes_at memory a (suc n) = ap suc (length-bytes_at memory (a + 1) n)

module _ (tables : ℕ → Bool) (low : TablesLow tables) (r : Regs) (k : Kernel) (v : IsValid k) where
  sys_waited-Keeps :
      (pid : ℕ) (round : Round)
      → InUser r.x1
      → Pids.IsValid (after k.procs round)
      → Fds (length k.devices.store) (after k.procs round)
      → Keeps (sys_waited tables r k pid round)
  sys_waited-Keeps pid missing u p f0 = v
  sys_waited-Keeps pid yields u p f0 = tt
  sys_waited-Keeps pid (reaped code t procs) u p f0 =
      branches (leb (2 ^ 31) pid || r.x1 == 0) _ _ (λ e. with_procs k v procs p f0)
        (λ e.
          branches (not (is_user_ptr r.x1 4)) _ _ (λ f. with_procs k v procs p f0)
            (λ f.
              unless_hit-Keeps (hits tables r.x1 4) _ _
                (hits_user tables low r.x1 4 4 u (ground (arith, f)))
                (with_memory (record k { procs = procs }) (with_procs k v procs p f0) _)))

  sys_waitpid-Keeps : (pid : ℕ) → InUser r.x1 → Keeps (sys_waitpid tables r k pid)
  sys_waitpid-Keeps pid u =
      sys_waited-Keeps pid _ u (wait_round-IsValid k.procs pid v.procs_valid)
        (wait_round-Fds _ k.procs v.procs_valid v.fds_valid pid)

  sys_open-Keeps : (task : ℕ) → Keeps (sys_open task r k)
  sys_open-Keeps task =
      branches (not (is_user_ptr r.x0 1)) _ _ (λ e. v)
        (λ e.
          branches (dev == 0) _ _ (λ f. ok)
            (λ f.
              with_procs (record k { devices = (open_by k.devices name).1 }) ok _
                (fd_alloc-IsValid k.procs task dev v.procs_valid) now))
    where
      name : List ℕ
      name = bytes_at k.memory r.x0 16

      dev : ℕ
      dev = (open_by k.devices name).0

      now : Fds (length (open_by k.devices name).1.store) (fd_alloc k.procs task dev).1
      now = rw (length-open_by k.devices name) (
          fd_alloc-Fds _ k.procs v.procs_valid v.fds_valid task dev
            (open_by-le k.devices name v.devices_valid))

      ok : IsValid (record k { devices = (open_by k.devices name).1 })
      ok =
          with_devices k v _ (open_by-IsValid k.devices name v.devices_valid)
            (length-open_by k.devices name)

  sys_print-Keeps : Keeps (sys_print r k)
  sys_print-Keeps =
      branches (not (leb 0x40000000 r.x0 || (leb user_va_base r.x0 && ltb r.x0 user_va_stack))) _ _
        (λ e. v) (λ e. v)

  sys_close-Keeps : (task : ℕ) (fd : ℤ) → Keeps (sys_close task k fd)
  sys_close-Keeps task (negsuc n) = v
  sys_close-Keeps task (pos fd) =
      with_procs k v _ (fd_close-IsValid k.procs task fd v.procs_valid)
        (fd_close-Fds _ k.procs v.procs_valid v.fds_valid task fd)

  sys_read-Keeps : (drv : Drivers) (task : ℕ) → InUser r.x1 → Keeps (sys_read tables drv task r k)
  sys_read-Keeps drv task u =
      branches (not (is_user_ptr r.x1 (u32 r.x2))) _ _ (λ e. v)
        (λ e.
          branches (dev_of task k (int_of r.x0) == 0) _ _ (λ f. v)
            (λ f.
              unless_hit-Keeps (hits tables r.x1 _) _ _
                (hits_user tables low r.x1 (u32 r.x2) _ u (ground (arith, e))) (with_memory k v _)))

  sys_write-Keeps : (drv : Drivers) (task : ℕ) → Keeps (sys_write drv task r k)
  sys_write-Keeps drv task =
      branches (not (is_user_ptr r.x1 (u32 r.x2))) _ _ (λ e. v)
        (λ e. branches (dev_of task k (int_of r.x0) == 0) _ _ (λ f. v) (λ f. v))

  sys_create-Keeps : Keeps (sys_create r k)
  sys_create-Keeps =
      branches (not (is_user_ptr r.x0 1)) _ _ (λ e. v)
        (λ e. with_ramfs k v _ (create-IsValid k.files (bytes_at k.memory r.x0 16) v.files_valid))

  sys_delete-Keeps : Keeps (sys_delete r k)
  sys_delete-Keeps =
      branches (not (is_user_ptr r.x0 1)) _ _ (λ e. v)
        (λ e. with_ramfs k v _ (delete-IsValid k.files (bytes_at k.memory r.x0 16) v.files_valid))

  data_at-Holds : (p len : ℕ) → Holds (data_at k.memory p) (clipped len)
  data_at-Holds p len =
      if_ind (λ (o : Option (List ℕ)). Holds o (clipped len)) (p == 0) _ _ (λ e. tt)
        (λ e. ground (arith, length-bytes_at k.memory p 64))

  sys_ipc_send-Keeps : Keeps (sys_ipc_send r k)
  sys_ipc_send-Keeps =
      branches (ltb 0 (u32 r.x2) && not (is_user_ptr r.x1 (u32 r.x2))) _ _ (λ e. v)
        (λ e. with_table k v _ (
          send-TableValid k.queues v.queues_valid (int_of r.x0) (data_at k.memory r.x1) (u32 r.x2)
            (u32 r.x3) (data_at-Holds r.x1 (u32 r.x2))))

  received-Keeps :
      (a : ℤ × Out × List Queue)
      → is_user_ptr r.x1 64 ≡ true
      → InUser r.x1 × (InUser r.x2 × InUser r.x3)
      → TableValid a.2
      → Keeps (received tables r k a)
  received-Keeps (negsuc n, out, queues) ok u t = with_table k v queues t
  received-Keeps (pos n, out, queues) ok u t =
      unless_hit-Keeps (hits tables r.x1 64 || (word_hits tables r.x2 || word_hits tables r.x3)) _ _
        (rw (hits_user tables low r.x1 64 64 u.0 ok, word_hits_user tables low r.x2 u.1.0)
          (word_hits_user tables low r.x3 u.1.1))
        (with_memory (record k { queues = queues }) (with_table k v queues t) _)

  sys_ipc_recv-Keeps : InUser r.x1 × (InUser r.x2 × InUser r.x3) → Keeps (sys_ipc_recv tables r k)
  sys_ipc_recv-Keeps u =
      branches (not (is_user_ptr r.x1 64)) _ _ (λ e. v)
        (λ e.
          branches (not (r.x2 == 0) && not (is_user_ptr r.x2 4)) _ _ (λ f. v)
            (λ f.
              branches (not (r.x3 == 0) && not (is_user_ptr r.x3 4)) _ _ (λ g. v)
                (λ g.
                  received-Keeps (recv k.queues (int_of r.x0) (out_of r k)) (ground (arith, e)) u
                    (recv-TableValid k.queues v.queues_valid (int_of r.x0) (out_of r k)))))

-- If the kernel's own tables stand below the window of user memory, and the pointers that a call stores through are null or not below that window, then from a kernel whose process table, files, queues and devices are valid and whose descriptors are null or point to devices, a system call of any number, with any other registers, stores into no table and leaves such a kernel, whether it returns, fails, or ends the task.
pub dispatch-Keeps :
    (tables : ℕ → Bool) (drv : Drivers) (task ticks : ℕ) (r : Regs) (k : Kernel)
    → TablesLow tables
    → UserRegs r
    → IsValid k
    → Keeps (dispatch tables drv task ticks r k)
unfolding dispatch
dispatch-Keeps tables drv task ticks r k low u v =
    branches (r.x8 == 1) _ _ (λ e. sys_print-Keeps tables low r k v)
      (λ e.
        branches (r.x8 == 2) _ _ (λ e. v)
          (λ e.
            branches (r.x8 == 3) _ _ (λ e. tt)
              (λ e.
                branches (r.x8 == 4) _ _
                  (λ e.
                    with_procs k v _ (exit-IsValid k.procs task (u32 r.x0) v.procs_valid)
                      (exit-Fds _ k.procs v.procs_valid v.fds_valid task (u32 r.x0)))
                  (λ e.
                    branches (r.x8 == 20) _ _ (λ e. v)
                      (λ e.
                        branches (r.x8 == 21) _ _
                          (λ e.
                            sys_waitpid-Keeps tables low r k v (u32 r.x0)
                              (u.on_wait ((==_iff r.x8 21).0 e)))
                          (λ e.
                            branches (r.x8 == 7) _ _ (λ e. sys_open-Keeps tables low r k v task)
                              (λ e.
                                branches (r.x8 == 8) _ _
                                  (λ e. sys_close-Keeps tables low r k v task (int_of r.x0))
                                  (λ e.
                                    branches (r.x8 == 5) _ _
                                      (λ e.
                                        sys_read-Keeps tables low r k v drv task
                                          (u.on_read ((==_iff r.x8 5).0 e)))
                                      (λ e.
                                        branches (r.x8 == 6) _ _
                                          (λ e. sys_write-Keeps tables low r k v drv task)
                                          (λ e.
                                            branches (r.x8 == 9) _ _
                                              (λ e.
                                                branches (dev_of task k (int_of r.x0) == 0) _ _
                                                  (λ f. v) (λ f. v))
                                              (λ e.
                                                branches (r.x8 == 10) _ _
                                                  (λ e. sys_create-Keeps tables low r k v)
                                                  (λ e.
                                                    branches (r.x8 == 11) _ _
                                                      (λ e. sys_delete-Keeps tables low r k v)
                                                      (λ e.
                                                        branches (r.x8 == 15) _ _ (λ e. v)
                                                          (λ e.
                                                            branches (r.x8 == 16) _ _
                                                            (λ e. with_table k v _ (
                                                            create-TableValid k.queues
                                                            v.queues_valid (u32 r.x0)))
                                                            (λ e.
                                                            branches (r.x8 == 17) _ _
                                                            (λ e.
                                                            sys_ipc_send-Keeps tables low r k v)
                                                            (λ e.
                                                            branches (r.x8 == 18) _ _
                                                            (λ e.
                                                            sys_ipc_recv-Keeps tables low r k v
                                                            (u.on_recv ((==_iff r.x8 18).0 e)))
                                                            (λ e.
                                                            branches (r.x8 == 19) _ _
                                                            (λ e. with_table k v _ (
                                                            destroy-TableValid k.queues
                                                            v.queues_valid (int_of r.x0)))
                                                            (λ e. v))))))))))))))))))
