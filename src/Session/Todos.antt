-- ===== src/Session/Todos.antt =====
-- The task list of a session, pkg/monetdroid/session.go: `SetTodos`, `AppendTaskFromCreate` and
-- `UpdateTask`.
pub mod Ids
mod Tests
use monetdroid.Prelude.{
  ℕ, ◌+◌, Bool, true, false, if◌then◌else◌, Option, none, some, List, [], ◌∷◌, ◌++◌, Text, codes,
  same, is_empty, length, drop_first,
}
use monetdroid.Types.{Todo, TaskCreateInput, TaskUpdateInput, itoa}

abbrev pub has_id : Text → Todo → Bool
has_id id t = same t.id id

abbrev pub new_todo : List Todo → TaskCreateInput → Todo
new_todo ts input = record {
  id = itoa (length ts + 1);
  content = input.subject;
  active_form = input.active_form;
  status = codes "pending";
}

unfoldable pub append_task_from_create : List Todo → Option TaskCreateInput → List Todo
append_task_from_create ts none = ts
append_task_from_create ts (some input) = ts ++ new_todo ts input ∷ []

-- The loop: the first todo with the id is removed, or given the status if that is not empty.
unfoldable pub update_first : List Todo → Text → Text → List Todo
unfolding same is_empty
update_first [] id status = []
update_first (t ∷ ts) id status =
    let later = t ∷ update_first ts id status in
    if has_id id t
    then (if same status (codes "deleted")
        then ts
        else if is_empty status
        then t ∷ ts
        else record t { status = status } ∷ ts)
    else later

unfoldable pub update_task : List Todo → Option TaskUpdateInput → List Todo
unfolding update_first is_empty
update_task ts none = ts
update_task ts (some input) =
    if is_empty input.task_id then ts else update_first ts input.task_id input.status
