-- ===== src/Process/Tests.antt =====
-- Runs of the control protocol of pkg/claude/process.go.
use monetdroid.Prelude.{
  arith, ◌-◌, ◌^◌, ◌≡◌, refl, false, none, some, List, [], ◌∷◌, Text, codes, same,
}
use monetdroid.Prelude.Maps.{lookup, insert, delete}
use monetdroid.Prelude.Slots.{slot_of, put}
use monetdroid.Types.{itoa, decimal_from}
use monetdroid.Process.{
  ClaudeProcess, CtlResponse, handle_control_response, new_process, request_id_of, send_request,
  answer_of, receive, deliver, print_int,
}
use monetdroid.Process.Requests.{
  ProcessStep, requests, responds, takes, leaves, step, run, ever_blocks, run_never_blocks,
}
use monetdroid.Process.Answered.{answered_process, request_answered}

abbrev response : Text → CtlResponse
response id = record {
  is_error = false;
  request_id = id;
  error_text = [];
  has_body = false;
  still_queued = none;
  cancelled = none;
  rewind = none;
}

abbrev first_steps : List ProcessStep
first_steps =
    requests ∷ responds (response (codes "req_1")) ∷ responds (response (codes "req_1")) ∷ []

abbrev others : List ProcessStep
others = takes 0 ∷ requests ∷ responds (response (codes "req_3")) ∷ []

second_id : (send_request (run new_process first_steps)).1 ≡ codes "req_2"
unfolding send_request run step handle_control_response deliver request_id_of print_int itoa
    decimal_from lookup insert delete same slot_of put
second_id = refl

second_channel : (send_request (run new_process first_steps)).2 ≡ 1
unfolding send_request run step handle_control_response deliver request_id_of print_int itoa
    decimal_from lookup insert delete same slot_of put
second_channel = refl

-- The number behind the largest int is printed with its sign.
wrapped_id : request_id_of (2 ^ 64 - 1) ≡ codes "req_-1"
unfolding request_id_of print_int itoa decimal_from
wrapped_id = refl

run_never_blocks_example : ever_blocks new_process first_steps ≡ false
run_never_blocks_example = run_never_blocks first_steps

abbrev end : ClaudeProcess
end =
    answered_process first_steps others (response (codes "req_2"))
      (responds (response (codes "req_2")) ∷ leaves (codes "req_2") ∷ [])

request_answered_example : (receive end 1).1 ≡ some (answer_of (response (codes "req_2")))
unfolding same
request_answered_example =
    request_answered first_steps others
      (responds (response (codes "req_2")) ∷ leaves (codes "req_2") ∷ []) (codes "req_2") 1
      (response (codes "req_2")) second_id second_channel refl (omega arith) refl refl
