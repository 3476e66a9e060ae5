-- ===== src/Permissions/Tests.antt =====
-- Two permission requests, of which one is answered twice.
use monetdroid.Prelude.{
  ◌≡◌, refl, true, false, none, some, List, [], ◌∷◌, Text, codes, any, same, is_empty,
}
use monetdroid.Prelude.Maps.{lookup, insert, delete}
use monetdroid.Prelude.Slots.{slot_of, put, drain}
use monetdroid.Process.Scan.{PermissionRequest}
use monetdroid.Permissions.{
  ask_permission, take_response, PermSuggestion, note_suggestions, remove_permission, send_response,
  resume_answer, handle_perm, is_request,
}
use monetdroid.Permissions.Waiting.{
  PermOp, asks, takes, answers, resumes, perm_step, perm_run, no_requests, is_waiting,
  perm_run_asked,
}

abbrev request : Text → PermissionRequest
request id = record {
  request_id = id;
  tool_name = codes "Bash";
  tool_use_id = codes "t";
  input = none;
  decision_reason = [];
  suggestions = [];
}

abbrev auto_mode : PermSuggestion
auto_mode = record { sets_mode = true; mode = codes "auto"; rule = [] }

-- The second answer to p is stuck until the first is received, and then goes on.
abbrev ops : List PermOp
ops =
    asks (request (codes "p"))
    ∷ asks (request (codes "q"))
    ∷ answers (codes "p") true (some auto_mode ∷ []) []
    ∷ answers (codes "p") false [] []
    ∷ answers (codes "q") true (none ∷ []) []
    ∷ takes 0
    ∷ resumes 0
    ∷ []

first_answer_lem :
    (take_response
      (handle_perm
        (ask_permission (no_requests [] [] []) (request (codes "p")))
        (codes "p")
        true
        (some auto_mode ∷ [])
        []).0
      0).1
    ≡ some (record { allow = true; permissions = []; updated_input = none; message = [] })
unfolding perm_run perm_step ask_permission take_response handle_perm send_response resume_answer
    note_suggestions remove_permission insert lookup delete slot_of put drain same is_empty
first_answer_lem = refl

-- An id that is asked for again: the answer that was stuck takes its message from the log.
asked_again_lem :
    (perm_run (no_requests [] [] []) (
      asks (request (codes "p"))
      ∷ answers (codes "p") true [] []
      ∷ answers (codes "p") true [] []
      ∷ takes 0
      ∷ asks (request (codes "p"))
      ∷ resumes 0
      ∷ [])).log
    ≡ []
unfolding perm_run perm_step ask_permission take_response handle_perm send_response resume_answer
    note_suggestions remove_permission insert lookup delete slot_of put drain same is_empty
asked_again_lem = refl

q_waits : is_waiting (codes "q") (perm_run (no_requests [] [] []) ops) ≡ true
unfolding perm_run perm_step ask_permission take_response handle_perm send_response resume_answer
    note_suggestions remove_permission insert lookup delete slot_of put drain same is_empty
q_waits = refl

perm_run_asked_example :
    any (is_request (codes "q")) (perm_run (no_requests [] [] []) ops).log ≡ true
perm_run_asked_example = perm_run_asked [] [] [] ops (codes "q") (unfold same in refl) q_waits
