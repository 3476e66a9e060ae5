-- ===== src/Process/Requests.antt =====
-- Control requests and their responses in any order of steps, pkg/claude/process.go.
use monetdroid.Prelude.{
  ℕ, ◌+◌, ◌<◌, ◌≡◌, refl, Bool, true, false, ◌||◌, List, [], ◌∷◌, Text, arith, Bool-cases,
  Option-cases, ◌%◌, ◌^◌, ◌≤◌, ◌==◌, ==_iff, ◌⊎◌, none, some, sym, ap, ◌∙◌, if◌then◌else◌, inl, inr,
  same, same_iff,
}
use mathlib.Core.Option.{some-injective, none-ne-some}
use monetdroid.Prelude.Maps.{Map, lookup, insert, delete, lookup-insert, lookup-delete}
use monetdroid.Prelude.Slots.{slot_of, slot_of-put, slot_of-drain}
use monetdroid.Process.{
  ClaudeProcess, CtlResponse, blocks, new_process, request_id_of, send_request, deliver,
  handle_control_response, receive, give_up,
}

-- A request is sent or its writing fails, a response arrives, a caller takes its response or gives
-- up.
pub data ProcessStep : Type 0 where
  requests : ProcessStep
  responds : CtlResponse → ProcessStep
  takes : ℕ → ProcessStep
  leaves : Text → ProcessStep

unfoldable pub step : ClaudeProcess → ProcessStep → ClaudeProcess
unfolding send_request handle_control_response receive give_up
step p requests = (send_request p).0
step p (responds resp) = (handle_control_response p resp).0
step p (takes ch) = (receive p ch).0
step p (leaves id) = give_up p id

unfoldable pub run : ClaudeProcess → List ProcessStep → ClaudeProcess
unfolding step
run p [] = p
run p (s ∷ ss) = run (step p s) ss

-- Whether the reader of the output has to wait in a step.
abbrev pub step_blocks : ClaudeProcess → ProcessStep → Bool
step_blocks p (responds resp) = elim (handle_control_response p resp).1 [
  | blocks ↦ true
  | _ ↦ false
]
step_blocks p _ = false

abbrev pub ever_blocks : ClaudeProcess → List ProcessStep → Bool
ever_blocks p [] = false
ever_blocks p (s ∷ ss) = step_blocks p s || ever_blocks (step p s) ss

-- A pending channel is empty and of one request only, and no channel is used before it is made.
pub record IsOrderly (p : ClaudeProcess) : Type 0 where
  pub made : (id : Text) (ch : ℕ) → lookup id p.pending ≡ some ch → ch < p.channels
  pub free : (id : Text) (ch : ℕ) → lookup id p.pending ≡ some ch → slot_of ch p.mailbox ≡ none
  pub unshared :
      (id j : Text) (ch : ℕ) → lookup id p.pending ≡ some ch → lookup j p.pending ≡ some ch → id ≡ j
  pub unused : (ch : ℕ) → p.channels ≤ ch → slot_of ch p.mailbox ≡ none

-- An entry that is left when others are deleted.
left :
    (id j : Text) (ch : ℕ) (m : Map ℕ)
    → lookup j (delete id m) ≡ some ch
    → (same id j ≡ false) × (lookup j m ≡ some ch)
left id j ch m e = elim (Bool-cases (same id j)) [
  | inl here ↦ absurd (none-ne-some ch (rw here at (sym (lookup-delete id j m) ∙ e)))
  | inr apart ↦ (apart, rw apart at (sym (lookup-delete id j m) ∙ e))
]

-- An entry after a new one is the new one or an old one.
old_or_new :
    (id j : Text) (n ch : ℕ) (m : Map ℕ)
    → lookup j (insert id n m) ≡ some ch
    → ((id ≡ j) × (ch ≡ n)) ⊎ (lookup j m ≡ some ch)
old_or_new id j n ch m e = elim (Bool-cases (same id j)) [
  | inl here ↦ inl (
    (same_iff id j).0 here,
    sym (some-injective n ch (rw here at (sym (lookup-insert id j n m) ∙ e))),
  )
  | inr apart ↦ inr (rw apart at (sym (lookup-insert id j n m) ∙ e))
]

without-IsOrderly :
    (p : ClaudeProcess) (id : Text)
    → IsOrderly p
    → IsOrderly (record p { pending = delete id p.pending })
without-IsOrderly p id o = record {
  made = λ j ch e. o.made j ch (left id j ch p.pending e).1;
  free = λ j ch e. o.free j ch (left id j ch p.pending e).1;
  unshared =
      λ i j ch e f. o.unshared i j ch (left id i ch p.pending e).1 (left id j ch p.pending f).1;
  unused = o.unused;
}

send-IsOrderly : (p : ClaudeProcess) → IsOrderly p → IsOrderly (send_request p).0
unfolding send_request
send-IsOrderly p o =
    let n = p.channels in
    let id = request_id_of ((p.req_seq + 1) % 2 ^ 64) in
    record {
      made = λ j ch e. elim (old_or_new id j n ch p.pending e) [
        | inl (_, at) ↦ omega (arith, at)
        | inr e' ↦ omega (arith, o.made j ch e')
      ];
      free = λ j ch e. elim (old_or_new id j n ch p.pending e) [
        | inl (_, at) ↦ o.unused ch (omega (arith, at))
        | inr e' ↦ o.free j ch e'
      ];
      unshared = λ i j ch e f. elim (old_or_new id i n ch p.pending e) [
        | inl (a, at) ↦ elim (old_or_new id j n ch p.pending f) [
          | inl (b, _) ↦ sym a ∙ b
          | inr f' ↦ absurd (omega (arith, at, o.made j ch f'))
        ]
        | inr e' ↦ elim (old_or_new id j n ch p.pending f) [
          | inl (_, at) ↦ absurd (omega (arith, at, o.made i ch e'))
          | inr f' ↦ o.unshared i j ch e' f'
        ]
      ];
      unused = λ ch h. o.unused ch (omega arith);
    }

-- The send to the channel of a request that was pending.
delivered-IsOrderly :
    (p : ClaudeProcess) (resp : CtlResponse) (ch : ℕ)
    → lookup resp.request_id p.pending ≡ some ch
    → IsOrderly p
    → IsOrderly (deliver (record p { pending = delete resp.request_id p.pending }) resp ch).0
unfolding deliver
delivered-IsOrderly p resp ch e o =
    let id = resp.request_id in
    let o1 = without-IsOrderly p id o in
    rw (deliver, o.free id ch e)
      (record {
        made = o1.made;
        free = λ j d f.
            let (apart, f') = left id j d p.pending f in
            slot_of-put ch d resp p.mailbox ∙ other j d apart f';
        unshared = o1.unshared;
        unused = λ d h. slot_of-put ch d resp p.mailbox ∙ later d h;
      })
  where
    other :
        (j : Text) (d : ℕ)
        → same resp.request_id j ≡ false
        → lookup j p.pending ≡ some d
        → (if ch == d then some resp else slot_of d p.mailbox) ≡ none
    other j d apart f = elim (Bool-cases (ch == d)) [
      | inl at ↦ absurd (
          ground (
            arith,
            apart,
            (same_iff resp.request_id j).1
                (o.unshared resp.request_id j d (e ∙ ap some ((==_iff ch d).0 at)) f),
          ))
      | inr off ↦ rw off (o.free j d f)
    ]

    later : (d : ℕ) → p.channels ≤ d → (if ch == d then some resp else slot_of d p.mailbox) ≡ none
    later d h = elim (Bool-cases (ch == d)) [
      | inl at ↦ absurd (omega (arith, (==_iff ch d).0 at, o.made resp.request_id ch e, h))
      | inr off ↦ rw off (o.unused d h)
    ]

pub step-IsOrderly : (p : ClaudeProcess) (s : ProcessStep) → IsOrderly p → IsOrderly (step p s)
unfolding step handle_control_response receive give_up
step-IsOrderly p requests o = send-IsOrderly p o
step-IsOrderly p (responds resp) o = elim (Option-cases (lookup resp.request_id p.pending)) [
  | inl e ↦ rw (step, handle_control_response, e) (without-IsOrderly p resp.request_id o)
  | inr (ch, e) ↦ rw (step, handle_control_response, e) (delivered-IsOrderly p resp ch e o)
]
step-IsOrderly p (takes ch) o = elim (Option-cases (slot_of ch p.mailbox)) [
  | inl e ↦ rw (step, receive, e) o
  | inr (resp, e) ↦
      rw (step, receive, e)
        (record {
          made = o.made;
          free = λ j d f. ground (arith, slot_of-drain ch d p.mailbox, o.free j d f);
          unshared = o.unshared;
          unused = λ d h. ground (arith, slot_of-drain ch d p.mailbox, o.unused d h);
        })
]
step-IsOrderly p (leaves id) o = without-IsOrderly p id o

pub new-IsOrderly : IsOrderly new_process
unfolding lookup slot_of
new-IsOrderly = record {
  made = λ id ch e. absurd (none-ne-some ch e);
  free = λ id ch e. refl;
  unshared = λ id j ch e f. absurd (none-ne-some ch e);
  unused = λ ch h. refl;
}

pub run-IsOrderly : (p : ClaudeProcess) (ss : List ProcessStep) → IsOrderly p → IsOrderly (run p ss)
unfolding run
run-IsOrderly p [] o = o
run-IsOrderly p (s ∷ ss) o = run-IsOrderly (step p s) ss (step-IsOrderly p s o)

step-runs_free : (p : ClaudeProcess) (s : ProcessStep) → IsOrderly p → step_blocks p s ≡ false
unfolding handle_control_response deliver
step-runs_free p (responds resp) o = elim (Option-cases (lookup resp.request_id p.pending)) [
  | inl e ↦ rw (step_blocks, handle_control_response, e) refl
  | inr (ch, e) ↦
      rw (step_blocks, handle_control_response, e, deliver, o.free resp.request_id ch e) refl
]
step-runs_free p _ o = refl

run_free_from : (p : ClaudeProcess) (ss : List ProcessStep) → IsOrderly p → ever_blocks p ss ≡ false
run_free_from p [] o = refl
run_free_from p (s ∷ ss) o =
    ground (arith, step-runs_free p s o, run_free_from (step p s) ss (step-IsOrderly p s o))

-- In every order of requests, responses, takings and give-ups, also when the CLI answers twice, late
-- or to ids that were never sent, no response finds the channel of its request full, so the reader
-- of the CLI's output never waits for a caller.
pub run_never_blocks : (ss : List ProcessStep) → ever_blocks new_process ss ≡ false
run_never_blocks ss = run_free_from new_process ss new-IsOrderly
