-- ===== src/Store/Tasks.antt =====
-- UpsertTaskIndex, GetTaskIndex and ListTaskIndexesByContext of internal/store/store.go.
use snw_agent_link.Prelude.{Bool, ◌&&◌, ◌||◌, List, String, same, ltb, ◌==◌, if◌then◌else◌}
use snw_agent_link.Errors.{Result, ok}
use snw_agent_link.Time.{Time, stored}
use snw_agent_link.Table.{select_one, select, update, taken, insert}
use snw_agent_link.Table.Sort.{order_by}
use snw_agent_link.Model.{TaskIndex}
use snw_agent_link.Store.Tables.{Database, Db, or_now, or_not_found, text_le}

abbrev pub task_key : String → TaskIndex → Bool
task_key id t = same t.task_id id

unfoldable pub upsert_task_index : Time → TaskIndex → Db (Unit {0})
upsert_task_index wall t d =
    let row = record t { updated_at = stored (or_now t.updated_at wall) } in
    (
      ok tt,
      record d {
        tasks =
            if taken (task_key t.task_id) d.tasks
            then update (task_key t.task_id) (λ _. row) d.tasks
            else insert row d.tasks;
      },
    )

unfoldable pub get_task_index : String → Database → Result TaskIndex
get_task_index id d = or_not_found (select_one (task_key id) d.tasks)

-- `ORDER BY updated_at, task_id`
abbrev task_before : TaskIndex → TaskIndex → Bool
task_before a b =
    ltb a.updated_at b.updated_at || (a.updated_at == b.updated_at && text_le a.task_id b.task_id)

unfoldable pub list_task_indexes_by_context : String → String → Database → List TaskIndex
list_task_indexes_by_context local context d =
    order_by task_before
      (select (λ t. same t.local_agent_id local && same t.context_id context) d.tasks)
