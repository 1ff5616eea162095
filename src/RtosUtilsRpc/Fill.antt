-- ===== src/RtosUtilsRpc/Fill.antt =====
-- The tasks that fit into a reply, and those that do not.
use esp32_components.Base.{
  ℕ, ◌+◌, ◌<◌, ◌≤◌, ◌≡◌, refl, ap, ◌∙◌, true, List, [], ◌∷◌, ◌++◌, append_assoc, none, some, length,
  length-append, get_elem?, arith, if◌then◌else◌, ltb, get_elem?-append_end, Outcome, returns,
  faults, ◌>>=◌, put, fetch, fetch-some, put_behind,
}
use esp32_components.ProtoRpc.{StatusEnum, rpc_success}
use esp32_components.RtosUtilsRpc.{
  TaskStatus, TaskInfo, TasksReply, describe, fill_tasks, report_tasks, get_system_tasks,
  get_system_tasks_reply_tag,
}

-- The first of the elements described by the tasks, and the rest as they were.
unfoldable pub described : (name_max : ℕ) → List TaskStatus → List TaskInfo → List TaskInfo
described name_max [] infos = infos
described name_max (t ∷ ts) [] = []
described name_max (t ∷ ts) (info ∷ infos) = describe name_max t info ∷ described name_max ts infos

fetch_behind :
    (pre : List TaskInfo) (x : TaskInfo) (xs : List TaskInfo) (i : ℕ)
    → i ≡ length pre
    → fetch (pre ++ x ∷ xs) i ≡ returns x
fetch_behind pre x xs i e =
    fetch-some (pre ++ x ∷ xs) i x
      (ap (λ k. get_elem? (pre ++ x ∷ xs) k) e ∙ get_elem?-append_end pre (x ∷ xs))

fill_one :
    (name_max : ℕ) (t : TaskStatus) (ts : List TaskStatus) (pre : List TaskInfo) (x : TaskInfo)
    (xs : List TaskInfo) (i : ℕ)
    → i ≡ length pre
    → fill_tasks name_max (t ∷ ts) i (pre ++ x ∷ xs)
      ≡ fill_tasks name_max ts (i + 1) ((pre ++ describe name_max t x ∷ []) ++ xs)
unfolding fill_tasks
fill_one name_max t ts pre x xs i e =
    ap
      (λ m. m >>= λ info.
        put (pre ++ x ∷ xs) i (describe name_max t info) >>= fill_tasks name_max ts (i + 1))
      (fetch_behind pre x xs i e)
    ∙ ap (λ m. m >>= fill_tasks name_max ts (i + 1))
        (put_behind pre x (describe name_max t x) xs i e)

fill_tasks-described :
    (name_max : ℕ) (ts : List TaskStatus) (pre xs : List TaskInfo) (i : ℕ)
    → i ≡ length pre
    → length ts ≤ length xs
    → fill_tasks name_max ts i (pre ++ xs) ≡ returns (pre ++ described name_max ts xs)
unfolding fill_tasks described
fill_tasks-described name_max [] pre xs i e l = refl
fill_tasks-described name_max (t ∷ ts) pre [] i e l = absurd (omega arith)
fill_tasks-described name_max (t ∷ ts) pre (x ∷ xs) i e l =
    fill_one name_max t ts pre x xs i e
    ∙ fill_tasks-described name_max ts (pre ++ describe name_max t x ∷ []) xs (i + 1)
        (omega (arith, length-append pre (describe name_max t x ∷ []))) (omega arith)
    ∙ ap (λ l. returns l) (append_assoc pre (describe name_max t x ∷ []) (described name_max ts xs))

fill_tasks-faults :
    (name_max : ℕ) (ts : List TaskStatus) (pre xs : List TaskInfo) (i : ℕ)
    → i ≡ length pre
    → length xs < length ts
    → fill_tasks name_max ts i (pre ++ xs) ≡ faults
unfolding fill_tasks
fill_tasks-faults name_max [] pre xs i e l = absurd (omega arith)
fill_tasks-faults name_max (t ∷ ts) pre [] i e l =
    ap
      (λ o. elim o as (λ o. Outcome TaskInfo) [ none ↦ faults | some x ↦ returns x ] >>= λ info.
        put (pre ++ []) i (describe name_max t info) >>= fill_tasks name_max ts (i + 1))
      (ap (λ k. get_elem? (pre ++ []) k) e ∙ get_elem?-append_end pre [])
fill_tasks-faults name_max (t ∷ ts) pre (x ∷ xs) i e l =
    fill_one name_max t ts pre x xs i e
    ∙ fill_tasks-faults name_max ts (pre ++ describe name_max t x ∷ []) xs (i + 1)
        (omega (arith, length-append pre (describe name_max t x ∷ []))) (omega arith)

-- What FreeRTOS documents of uxTaskGetSystemState(): an array of enough elements gets all tasks.
abbrev pub Reports : (ℕ → List TaskStatus × ℕ) → List TaskStatus → (runtime : ℕ) → Type 0
Reports system_state tasks runtime =
    (size : ℕ) → length tasks ≤ size → system_state size ≡ (tasks, runtime)

report_tasks-fill :
    (name_max : ℕ) (reply : TasksReply) (tasks : List TaskStatus) (runtime : ℕ)
    → 1 ≤ length tasks
    → report_tasks name_max reply (tasks, runtime) ≡ (
        fill_tasks name_max tasks 0 reply.task_info >>= λ infos. returns (
          record {
            which_msg = reply.which_msg;
            task_info = infos;
            task_info_count = length tasks;
            run_time = runtime;
          },
          rpc_success,
        ))
unfolding report_tasks
report_tasks-fill name_max reply [] runtime h = absurd (omega arith)
report_tasks-fill name_max reply (t ∷ ts) runtime h = refl

enough : (m n : ℕ) → n ≤ (if ltb m n then n else m)
enough m n = ground arith

-- If the memory is there and FreeRTOS has a task and gives all its tasks to an array that holds them,
-- as many tasks as the reply has room for are all reported, in order; with more of them the loop leaves
-- the array of the reply.
pub get_system_tasks_cases :
    (name_max : ℕ) (reply : TasksReply) (tasks : List TaskStatus) (runtime : ℕ)
    (system_state : ℕ → List TaskStatus × ℕ)
    → 1 ≤ length tasks
    → Reports system_state tasks runtime
    → let run = get_system_tasks name_max reply (length tasks) true system_state in
      (length tasks ≤ length reply.task_info
        → run
          ≡ returns (
            record {
              which_msg = get_system_tasks_reply_tag;
              task_info = described name_max tasks reply.task_info;
              task_info_count = length tasks;
              run_time = runtime;
            },
            rpc_success,
          ))
      × (length reply.task_info < length tasks → run ≡ faults)
unfolding get_system_tasks
get_system_tasks_cases name_max reply tasks runtime system_state h r =
    let infos = reply.task_info in
    let marked : TasksReply = record reply { which_msg = get_system_tasks_reply_tag } in
    let start =
      ap (report_tasks name_max marked) (r _ (enough (length infos) (length tasks)))
      ∙ report_tasks-fill name_max marked tasks runtime h in
    let finish : Outcome (List TaskInfo) → Outcome (TasksReply × StatusEnum) = λ m. m >>= λ infos.
    returns (
      record {
        which_msg = get_system_tasks_reply_tag;
        task_info = infos;
        task_info_count = length tasks;
        run_time = runtime;
      },
      rpc_success,
    ) in
    (
      (λ l. start ∙ ap finish (fill_tasks-described name_max tasks [] infos 0 refl l)),
      (λ l. start ∙ ap finish (fill_tasks-faults name_max tasks [] infos 0 refl l)),
    )
