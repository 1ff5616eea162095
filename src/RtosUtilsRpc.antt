-- ===== src/RtosUtilsRpc.antt =====
-- RtosUtils/src/RtosUtilsRpc.c: the call that reports the tasks of the system. What FreeRTOS says of
-- them is given.
pub mod Fill
mod Tests
use esp32_components.Base.{
  ℕ, ◌+◌, Bool, List, [], ◌∷◌, Option, none, some, if◌then◌else◌, ltb, length, strncpy, Outcome,
  returns, ◌>>=◌, put, fetch,
}
use esp32_components.ProtoRpc.{StatusEnum, rpc_success, rpc_handler_error}

-- `core` is `none` for a task that is not pinned to a core.
pub record TaskStatus : Type 0 where
  pub task_name : List ℕ
  pub task_number : ℕ
  pub current_state : ℕ
  pub current_priority : ℕ
  pub run_time_counter : ℕ
  pub stack_high_water_mark : ℕ
  pub core : Option ℕ

-- `core_num` is `none` for -1.
pub record TaskInfo : Type 0 where
  pub name : List ℕ
  pub number : ℕ
  pub state : ℕ
  pub prio : ℕ
  pub rtc : ℕ
  pub stack_remaining : ℕ
  pub core_num : Option ℕ

-- The callset of a reply: `task_info` is an array of a fixed length.
pub record TasksReply : Type 0 where
  pub which_msg : ℕ
  pub task_info : List TaskInfo
  pub task_info_count : ℕ
  pub run_time : ℕ

abbrev pub get_system_tasks_reply_tag : ℕ
get_system_tasks_reply_tag = 2

unfoldable pub describe : (name_max : ℕ) → TaskStatus → TaskInfo → TaskInfo
describe name_max task info = record {
  name = strncpy info.name task.task_name name_max;
  number = task.task_number;
  state = task.current_state;
  prio = task.current_priority;
  rtc = task.run_time_counter;
  stack_remaining = task.stack_high_water_mark;
  core_num = task.core;
}

-- The loop over the tasks from the `i`th on.
unfoldable pub fill_tasks :
    (name_max : ℕ) → List TaskStatus → ℕ → List TaskInfo → Outcome (List TaskInfo)
unfolding describe
fill_tasks name_max [] i infos = returns infos
fill_tasks name_max (task ∷ tasks) i infos = do
  info ← fetch infos i
  infos' ← put infos i (describe name_max task info)
  fill_tasks name_max tasks (i + 1) infos'

-- What uxTaskGetSystemState() gives for an array of a size: the tasks and the run time.
unfoldable pub report_tasks :
    (name_max : ℕ) → TasksReply → List TaskStatus × ℕ → Outcome (TasksReply × StatusEnum)
unfolding fill_tasks
report_tasks name_max reply ([], runtime) =
    returns (record reply { task_info_count = 0 }, rpc_handler_error)
report_tasks name_max reply (t ∷ ts, runtime) = do
  infos ← fill_tasks name_max (t ∷ ts) 0 reply.task_info
  returns (
    record {
      which_msg = reply.which_msg;
      task_info = infos;
      task_info_count = length (t ∷ ts);
      run_time = runtime;
    },
    rpc_success,
  )

-- `count` is what uxTaskGetNumberOfTasks() gives, and `room` whether malloc() succeeds.
unfoldable pub get_system_tasks :
    (name_max : ℕ)
    → TasksReply
    → (count : ℕ) → (room : Bool) → (ℕ → List TaskStatus × ℕ)
    → Outcome (TasksReply × StatusEnum)
unfolding report_tasks
get_system_tasks name_max reply_msg count room system_state =
    let reply : TasksReply = record reply_msg { which_msg = get_system_tasks_reply_tag } in
    let max_tasks = length reply.task_info in
    let num_tasks = if ltb max_tasks count then count else max_tasks in
    if room
    then report_tasks name_max reply (system_state num_tasks)
    else returns (record reply { task_info_count = 0 }, rpc_handler_error)
