-- ===== src/RtosUtilsRpc/Tests.antt =====
-- The report of two tasks with room for two.
use esp32_components.Base.{
  ℕ, ◌≤◌, ◌<◌, ◌≡◌, refl, true, List, [], ◌∷◌, none, some, arith, returns, faults,
}
use esp32_components.ProtoRpc.{rpc_success}
use esp32_components.RtosUtilsRpc.{TaskStatus, TaskInfo, TasksReply, get_system_tasks}
use esp32_components.RtosUtilsRpc.Fill.{described, get_system_tasks_cases}

abbrev task : ℕ → TaskStatus
task n = record {
  task_name = 105 ∷ 100 ∷ [];
  task_number = n;
  current_state = 1;
  current_priority = 5;
  run_time_counter = 900;
  stack_high_water_mark = 512;
  core = none;
}

abbrev vacant : TaskInfo
vacant = record {
  name = 0 ∷ 0 ∷ 0 ∷ 0 ∷ [];
  number = 0;
  state = 0;
  prio = 0;
  rtc = 0;
  stack_remaining = 0;
  core_num = some 0;
}

abbrev reply : TasksReply
reply = record {
  which_msg = 1;
  task_info = vacant ∷ vacant ∷ [];
  task_info_count = 0;
  run_time = 0;
}

abbrev tasks : List TaskStatus
tasks = task 1 ∷ task 2 ∷ []

get_system_tasks_cases_example :
    let run = get_system_tasks 4 reply 2 true (λ size. (tasks, 7000)) in
    (2 ≤ 2
      → run
        ≡ returns (
          record {
            which_msg = 2;
            task_info = described 4 tasks (vacant ∷ vacant ∷ []);
            task_info_count = 2;
            run_time = 7000;
          },
          rpc_success,
        ))
    × (2 < 2 → run ≡ faults)
get_system_tasks_cases_example =
    get_system_tasks_cases 4 reply tasks 7000 (λ size. (tasks, 7000)) (omega arith) (λ size l. refl)
