-- ===== src/ProcStatus/Osx.antt =====
-- src/proc-status.c for OS X: the kernel's answer to `task_info` is an argument, `none` when it fails.
use acdc.Base.{ℕ, ◌/◌, Option, none, some}
use acdc.Base.Run.{Cmd, stop, put_state, pure, get_state, exit_failure}

-- The state is `_rss`.
unfoldable pub update_proc_status : Option ℕ → Cmd ℕ (Unit {0})
update_proc_status none = stop exit_failure
update_proc_status (some resident_size) = put_state (resident_size / 1024)

-- `get_dirty_hugepages`, `get_vm_peak`, `get_vm_size`, `get_high_water_mark`, `get_data_segment_size`.
unfoldable pub no_number : Cmd ℕ ℕ
no_number = pure 0

-- `get_resident_set_size`.
unfoldable pub osx_resident_set_size : Cmd ℕ ℕ
osx_resident_set_size = get_state
