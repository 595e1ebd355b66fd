-- ===== src/Sched/Tests.antt =====
-- Concrete runs of the scheduler of kernel/sched.c, and instances of the theorems about it.
use aeos.Sched.{
  yield_cpu, exit, Sched, task, yield_from, is_running, rotate, zero_task, ready, next_ready, scan,
  running, switch_to,
}
use aeos.Base.{
  ◌∷◌, ℕ, arith, ◌≤◌, refl, ◌≡◌, set, ◌≢◌, replicate, [], leb, some, none, false, suc, zero,
}
use aeos.Sched.Setup.{spawn}
use aeos.Sched.Valid.{IsValid}
use aeos.Sched.Ends.{Ends, yield_cpu-Ends, exit-Ends}
use aeos.Sched.Fair.{yields, ready_gets_cpu}
use aeos.Sched.Watchdog.{ticks, ticks_flag}
use aeos.Sched.Context.{Keeps, yield_cpu-Keeps}
use aeos.Sched.Spawn.{SpawnEnds, spawn-SpawnEnds}

-- Before `sched_init`: static storage, and the kernel's registers.
abbrev zeroed : Sched
zeroed = record {
  tasks = replicate 16 zero_task;
  current = none;
  uptime = 0;
  watchdog_limit = 600;
  live = replicate 13 7;
  active_space = 0;
}

-- Task 1 runs; tasks 0 and 3 wait.
abbrev three : Sched
three = record zeroed {
  tasks =
      set
        (set (set zeroed.tasks 0 (record zero_task { state = ready })) 1
          (record zero_task { state = running }))
        3 (record zero_task { state = ready });
  current = some 1;
}

quiet_zero : (n j : ℕ) → is_running (task (replicate n zero_task) j).state ≡ false
quiet_zero zero j = refl
quiet_zero (suc n) zero = refl
quiet_zero (suc n) (suc j) = quiet_zero n j

three-others : (j : ℕ) → j ≢ 1 → is_running (task three.tasks j).state ≡ false
three-others zero ne = refl
three-others (suc zero) ne = absurd (ne refl)
three-others (suc (suc zero)) ne = refl
three-others (suc (suc (suc zero))) ne = refl
three-others (suc (suc (suc (suc j)))) ne = quiet_zero 12 j

three-IsValid : IsValid three 1
three-IsValid = record {
  size = refl;
  current_is = refl;
  current_in = omega arith;
  others = three-others;
  space_is = refl;
}

yield_cpu-Ends_example : Ends 1 (yield_cpu three)
yield_cpu-Ends_example = yield_cpu-Ends three 1 three-IsValid refl

exit-Ends_example : Ends 1 (exit three)
exit-Ends_example = exit-Ends three 1 three-IsValid refl

ready_gets_cpu_example : (n : ℕ) × (n ≤ 15) × ((yields n three).current ≡ some 0)
ready_gets_cpu_example = ready_gets_cpu three 1 0 three-IsValid refl (omega arith) refl

ticks_flag_example :
    ((task (ticks 601 three).tasks 1).kill_pending ≡ leb 600 601) × IsValid (ticks 601 three) 1
ticks_flag_example =
    ticks_flag 601 three 1 three-IsValid refl (omega arith) (omega arith) refl refl (omega arith)

yield_cpu-Keeps_example : Keeps three 1 (yield_cpu three)
yield_cpu-Keeps_example = yield_cpu-Keeps three 1 three-IsValid refl refl

spawn-SpawnEnds_example :
    SpawnEnds three 4096 8192 65536 1024 (spawn three 4096 (116 ∷ []) 8192 65536 1024)
spawn-SpawnEnds_example = spawn-SpawnEnds three 4096 (116 ∷ []) 8192 65536 1024 refl

-- The round robin goes from 1 to 3, over the unused slot 2, and then to 0.
two_yields : (yields 2 three).current ≡ some 0
unfolding yields yield_cpu yield_from rotate next_ready scan switch_to
two_yields = refl
