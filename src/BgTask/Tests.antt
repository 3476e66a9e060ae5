-- ===== src/BgTask/Tests.antt =====
-- Runs of pkg/monetdroid/bgtask.go.
use monetdroid.Prelude.{◌≡◌, refl, [], codes, has_prefix}
use monetdroid.BgTask.{parse_bg_task_path}

path_found :
    parse_bg_task_path
      (codes "id 7. Output is being written to: /tmp/a.output. x.output y\nz.output")
    ≡ codes "/tmp/a.output. x.output"
unfolding parse_bg_task_path has_prefix
path_found = refl

no_path : parse_bg_task_path (codes "Output is being written to: .output") ≡ []
unfolding parse_bg_task_path has_prefix
no_path = refl
