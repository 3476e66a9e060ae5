-- ===== src/RenderContext/Tests.antt =====
-- Runs of `precomputeRenderContext` of pkg/monetdroid/hub.go.
use monetdroid.Prelude.{◌≡◌, refl, false, some, List, [], ◌∷◌, Text, codes, same, is_empty, arith}
use monetdroid.Prelude.Maps.{lookup}
use monetdroid.Types.{MsgType, ServerMsg, blank}
use monetdroid.Model.{ModelBase, build_model}
use monetdroid.RenderContext.{precompute_render_context}
use monetdroid.RenderContext.Maps.{last_index, is_use_of, is_result_of, precompute_indexes}
use monetdroid.RenderContext.Mirror.{known, rendered, precompute-build_model}

abbrev uses : Text → ServerMsg
uses uuid = record (blank MsgType.tool_use) { tool_use_id = codes "t"; uuid = uuid }

abbrev answers : ServerMsg
answers = record (blank MsgType.tool_result) { tool_use_id = codes "t" }

-- The tool is used on two branches; `b` is dormant.
abbrev log : List ServerMsg
log = uses (codes "a") ∷ uses (codes "b") ∷ answers ∷ []

last_on_branch : last_index (is_use_of (codes "t") (codes "a" ∷ [])) log ≡ some 0
unfolding same is_empty
last_on_branch = refl

precompute_indexes_example :
    (lookup (codes "t") (precompute_render_context log (codes "a" ∷ [])).tool_use_indexes
      ≡ last_index (is_use_of (codes "t") (codes "a" ∷ [])) log)
    × (lookup (codes "t") (precompute_render_context log (codes "a" ∷ [])).tool_result_indexes
        ≡ last_index (is_result_of (codes "t") (codes "a" ∷ [])) log)
precompute_indexes_example = precompute_indexes log (codes "a" ∷ []) (codes "t") (ground arith)

abbrev base : ModelBase
base = record {
  cwd = [];
  label = [];
  auto_label = false;
  perm_mode = [];
  cost = record { total_cost_usd = 0; context_used = 0; context_window = 0; model_name = [] };
  diff_stat = record { added = 0; removed = 0 };
  tip = [];
  line_parents = [];
  process_alive = false;
}

precompute-build_model_example :
    rendered (codes "t") (precompute_render_context log (codes "b" ∷ codes "a" ∷ []))
    ≡ known (codes "t") (build_model base log (codes "s"))
precompute-build_model_example =
    precompute-build_model base log (codes "b" ∷ codes "a" ∷ []) (codes "s") (codes "t")
      (unfold same is_empty in refl) (ground arith)
