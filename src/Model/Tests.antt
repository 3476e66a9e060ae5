-- ===== src/Model/Tests.antt =====
-- Runs of the session model of pkg/monetdroid/model.go.
use monetdroid.Prelude.{◌≡◌, refl, true, false, [], ◌∷◌, codes, arith}
use monetdroid.Prelude.Maps.{lookup}
use monetdroid.Types.{MsgType, ServerMsg, blank}
use monetdroid.BgTask.{derive_bg_tasks}
use monetdroid.Model.{SessionModel, ModelBase, apply_all, build_model, initial_model}
use monetdroid.Model.Activity.{apply_all-pending, open_request_after}
use monetdroid.Model.Mirror.{build_model-derive_bg_tasks}

abbrev base : ModelBase
base = record {
  cwd = codes "/w";
  label = [];
  auto_label = true;
  perm_mode = codes "default";
  cost = record { total_cost_usd = 0; context_used = 0; context_window = 0; model_name = [] };
  diff_stat = record { added = 0; removed = 0 };
  tip = [];
  line_parents = [];
  process_alive = true;
}

abbrev live : SessionModel
live = record (initial_model base (codes "s")) { folding = false; turn_active = true }

abbrev asks : ServerMsg
asks = record (blank MsgType.permission_request) {
  tool_use_id = codes "t";
  perm_tool = codes "Bash";
}

abbrev answers : ServerMsg
answers = record (blank MsgType.tool_result) {
  tool_use_id = codes "t";
  output = codes "Output is being written to: /tmp/t.output";
}

apply_all-pending_example :
    lookup (codes "t") (apply_all live (asks ∷ answers ∷ [])).pending_perms
    ≡ open_request_after (codes "t") (lookup (codes "t") live.pending_perms) (asks ∷ answers ∷ [])
apply_all-pending_example = apply_all-pending (codes "t") live (asks ∷ answers ∷ []) (ground arith)

abbrev says : ServerMsg
says = record (blank MsgType.text) { uuid = codes "u" }

build_model-derive_bg_tasks_example :
    (build_model base (asks ∷ answers ∷ []) (codes "s")).bg_tasks
    ≡ derive_bg_tasks (asks ∷ answers ∷ [])
build_model-derive_bg_tasks_example =
    build_model-derive_bg_tasks base (asks ∷ answers ∷ []) (codes "s") refl
