-- ===== src/Kernel.antt =====
-- The process table, the ready list and the scheduler: src/include/proc.h, src/system/sched.c,
-- src/system/make_avail.c, src/system/get_pid.c, src/system/create.c and src/system/start_proc.c.
pub mod Queue
pub mod Links
pub mod State
pub mod Sched
pub mod Placed
pub mod SleepList
pub mod Moves
pub mod Parking
pub mod Scheduling
pub mod Wake
pub mod Sem
pub mod Sleep
pub mod Cond
pub mod Process
mod Tests
