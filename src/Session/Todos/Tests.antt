-- ===== src/Session/Todos/Tests.antt =====
-- Runs of the task list of pkg/monetdroid/session.go.
use monetdroid.Prelude.{[], codes}
use monetdroid.Types.{TaskCreateInput}

abbrev input : TaskCreateInput
input = record { subject = codes "x"; active_form = [] }
