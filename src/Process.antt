-- ===== src/Process.antt =====
-- pkg/claude/process.go: the control protocol between monetdroid and the CLI. A request waits for the
-- response with its id. Each request makes a channel of its own, which the map of the pending
-- requests holds under the id; the goroutines are steps in any order.
pub mod Requests
pub mod Ids
pub mod Answered
pub mod Scan
mod Tests
use monetdroid.Prelude.{
  ℕ, ◌+◌, ◌-◌, ◌%◌, ◌^◌, ltb, Bool, true, false, if◌then◌else◌, Option, none, some, List, [], ◌∷◌,
  ◌++◌, Text, codes, same, is_empty,
}
use monetdroid.Prelude.Maps.{Map, lookup, insert, delete, has}
use monetdroid.Prelude.Slots.{Slots, slot_of, put, drain}
use monetdroid.Types.{ImageData, ToolInput, itoa}

-- The bodies that a response can have, each `none` where its decoding fails.
pub record RewindBody : Type 0 where
  pub rewound : Bool
  pub prefill_text : Text
  pub preceding_assistant_uuid : Text
  pub error_text : Text

pub record CtlResponse : Type 0 where
  pub is_error : Bool  -- `Subtype == "error"`
  pub request_id : Text
  pub error_text : Text
  pub has_body : Bool
  pub still_queued : Option (List Text)
  pub cancelled : Option Bool
  pub rewind : Option RewindBody

pub data RequestError : Type 0 where
  write_failed process_died timed_out bad_body rewind_rejected : RequestError
  control_error rewind_error : Text → RequestError

pub data Answer (A : Type 0) : Type 0 where
  answered : A → Answer A
  failed : RequestError → Answer A

-- A channel is the number of the request that made it, counted without end; `req_seq` is an int, as
-- its 64 bits.
pub record ClaudeProcess : Type 0 where
  pub req_seq : ℕ
  pub channels : ℕ  -- how many were made
  pub pending : Map ℕ
  pub mailbox : Slots CtlResponse

abbrev pub new_process : ClaudeProcess
new_process = record { req_seq = 0; channels = 0; pending = []; mailbox = [] }

-- `%d` of an int.
unfoldable pub print_int : ℕ → Text
unfolding itoa
print_int n = if ltb n (2 ^ 63) then itoa n else b'-' ∷ itoa (2 ^ 64 - n)

unfoldable pub request_id_of : ℕ → Text
unfolding print_int
request_id_of n = codes "req_" ++ print_int n

-- The start of `sendControlRequest`: the id under which the request is sent, and its channel.
unfoldable pub send_request : ClaudeProcess → ClaudeProcess × Text × ℕ
unfolding request_id_of
send_request p =
    let n = (p.req_seq + 1) % 2 ^ 64 in
    let id = request_id_of n in
    (
      record p { req_seq = n; channels = p.channels + 1; pending = insert id p.channels p.pending },
      id,
      p.channels,
    )

-- What becomes of a response: `dropped` if nobody waits for it, `blocks` if the channel is full, so
-- that the reader of the CLI's output waits for up to five seconds.
pub data Delivery : Type 0 where
  delivered dropped blocks : Delivery

-- The send to the channel.
unfoldable pub deliver : ClaudeProcess → CtlResponse → ℕ → ClaudeProcess × Delivery
unfolding slot_of put
deliver p resp ch = elim (slot_of ch p.mailbox) [
  | some _ ↦ (p, blocks)
  | none ↦ (record p { mailbox = put ch resp p.mailbox }, delivered)
]

unfoldable pub handle_control_response : ClaudeProcess → CtlResponse → ClaudeProcess × Delivery
unfolding lookup delete deliver
handle_control_response p resp =
    let p1 : ClaudeProcess = record p { pending = delete resp.request_id p.pending } in
    elim (lookup resp.request_id p.pending) [ none ↦ (p1, dropped) | some ch ↦ deliver p1 resp ch ]

-- The answer that a response is.
unfoldable pub answer_of : CtlResponse → Answer CtlResponse
answer_of resp = if resp.is_error then failed (control_error resp.error_text) else answered resp

-- The end of `sendControlRequest`, when its channel holds a response.
unfoldable pub receive : ClaudeProcess → ℕ → ClaudeProcess × Option (Answer CtlResponse)
unfolding answer_of slot_of drain
receive p ch = elim (slot_of ch p.mailbox) [
  | none ↦ (p, none)
  | some resp ↦ (record p { mailbox = drain ch p.mailbox }, some (answer_of resp))
]

-- The end of `sendControlRequest`, when the process has died or thirty seconds are over.
unfoldable pub give_up : ClaudeProcess → Text → ClaudeProcess
unfolding delete
give_up p id = record p { pending = delete id p.pending }

-- What the callers make of an answer.
unfoldable pub interrupt_result : Answer CtlResponse → Answer (List Text)
interrupt_result (failed e) = failed e
interrupt_result (answered resp) =
    if resp.has_body
    then elim resp.still_queued [ none ↦ failed bad_body | some uuids ↦ answered uuids ]
    else answered []

unfoldable pub cancel_result : Answer CtlResponse → Answer Bool
cancel_result (failed e) = failed e
cancel_result (answered resp) =
    if resp.has_body
    then elim resp.cancelled [ none ↦ failed bad_body | some b ↦ answered b ]
    else answered false

unfoldable pub permission_mode_result : Answer CtlResponse → Option RequestError
permission_mode_result (failed e) = some e
permission_mode_result (answered resp) = none

-- The branch point and the text of the target.
unfoldable pub rewind_result : Answer CtlResponse → Answer (Text × Text)
unfolding is_empty
rewind_result (failed e) = failed e
rewind_result (answered resp) = elim resp.rewind [
  | none ↦ failed bad_body
  | some body ↦
      if body.rewound
      then answered (body.preceding_assistant_uuid, body.prefill_text)
      else if is_empty body.error_text
      then failed rewind_rejected
      else failed (rewind_error body.error_text)
]
