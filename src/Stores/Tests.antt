-- ===== src/Stores/Tests.antt =====
-- Runs of the stores of pkg/monetdroid/session_tracker.go and models.go.
use monetdroid.Prelude.{false, List, [], ◌∷◌, Text, codes}
use monetdroid.Stores.{TrackedSession, TextStore}
use monetdroid.Stores.Histories.{TrackerOp, tracks, closes}

abbrev tracked : Text → TrackedSession
tracked status = record {
  claude_id = codes "c";
  label = [];
  auto_label = false;
  status = status;
  outcome = [];
  cwd = [];
  branches = [];
  updated_at_millis = 0;
}

abbrev ops : List TrackerOp
ops =
    tracks 1 (tracked (codes "running"))
    ∷ tracks 2 (tracked (codes "completed"))
    ∷ closes (codes "d")
    ∷ []

abbrev no_commands : TextStore
no_commands = record { entries = []; saved = [] }

abbrev calls : List (Text × Text)
calls = (codes "d", codes "x") ∷ (codes "c", codes "y") ∷ []
