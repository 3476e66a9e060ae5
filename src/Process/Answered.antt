-- ===== src/Process/Answered.antt =====
-- A control request gets the response with its id, whatever other requests do meanwhile,
-- pkg/claude/process.go.
use monetdroid.Prelude.{
  ℕ, ◌%◌, ◌^◌, ◌<◌, ◌==◌, ==_iff, none, if◌then◌else◌, same_iff, count, sym, ap, ◌∙◌, Bool-cases,
  Option-cases, inl, inr, ◌+◌, ◌≡◌, refl, Bool, true, false, not, ◌&&◌, some, List, [], ◌∷◌, Text,
  arith, same, same_refl,
}
use mathlib.Core.Path.{subst}
use mathlib.Core.Option.{none-ne-some}
use monetdroid.Prelude.Maps.{lookup, delete, lookup-insert, lookup-delete}
use monetdroid.Prelude.Slots.{slot_of, slot_of-put, slot_of-drain}
use monetdroid.Process.Ids.{request_id_of_injective}
use monetdroid.Process.{
  ClaudeProcess, CtlResponse, new_process, request_id_of, send_request, handle_control_response,
  answer_of, deliver, receive, give_up,
}
use monetdroid.Process.Requests.{
  ProcessStep, requests, responds, takes, leaves, step, run, IsOrderly, step-IsOrderly,
  new-IsOrderly, run-IsOrderly,
}

-- A step that is not about the request with the id and the channel.
abbrev pub spares : Text → ℕ → ProcessStep → Bool
spares id ch requests = true
spares id ch (responds resp) = not (same resp.request_id id)
spares id ch (takes c) = not (c == ch)
spares id ch (leaves j) = not (same j id)

abbrev pub all_spare : Text → ℕ → List ProcessStep → Bool
all_spare id ch [] = true
all_spare id ch (s ∷ ss) = spares id ch s && all_spare id ch ss

abbrev pub is_sending : ProcessStep → Bool
is_sending requests = true
is_sending _ = false

-- The request with the number `n` waits, since when `k` requests have been sent.
record Waits (p : ClaudeProcess) (n k ch : ℕ) : Type 0 where
  numbered : p.req_seq ≡ (n + k) % 2 ^ 64
  is_pending : lookup (request_id_of n) p.pending ≡ some ch
  is_empty_channel : slot_of ch p.mailbox ≡ none

-- The numbers of fewer than 2^64 requests differ.
other_id :
    (n k : ℕ)
    → n < 2 ^ 64
    → 0 < k
    → k < 2 ^ 64
    → same (request_id_of ((n + k) % 2 ^ 64)) (request_id_of n) ≡ false
other_id n k hn hk h =
    elim (Bool-cases (same (request_id_of ((n + k) % 2 ^ 64)) (request_id_of n))) [
      | inl e ↦
          let at =
            request_id_of_injective ((n + k) % 2 ^ 64) n (omega arith) hn ((same_iff _ _).0 e) in
          absurd (omega (arith, at, hn, hk, h))
      | inr e ↦ e
    ]

request-Waits :
    (p : ClaudeProcess) (n k ch : ℕ)
    → n < 2 ^ 64
    → k + 1 < 2 ^ 64
    → Waits p n k ch
    → Waits (send_request p).0 n (k + 1) ch
unfolding send_request
request-Waits p n k ch hn hk w =
    let at : (p.req_seq + 1) % 2 ^ 64 ≡ (n + (k + 1)) % 2 ^ 64 = omega (arith, w.numbered) in
    record {
      numbered = at;
      is_pending =
          lookup-insert (request_id_of ((p.req_seq + 1) % 2 ^ 64)) (request_id_of n) p.channels
            p.pending
          ∙ rw (at, other_id n (k + 1) hn (omega arith) hk) w.is_pending;
      is_empty_channel = w.is_empty_channel;
    }

-- A response to another request, whose channel is another one.
response-Waits :
    (p : ClaudeProcess) (resp : CtlResponse) (n k ch : ℕ)
    → IsOrderly p
    → same resp.request_id (request_id_of n) ≡ false
    → Waits p n k ch
    → Waits (handle_control_response p resp).0 n k ch
unfolding handle_control_response deliver
response-Waits p resp n k ch o apart w =
    let id = resp.request_id in
    let kept : lookup (request_id_of n) (delete id p.pending) ≡ some ch =
      lookup-delete id (request_id_of n) p.pending ∙ rw apart w.is_pending in
    elim (Option-cases (lookup id p.pending)) [
      | inl e ↦
          rw (handle_control_response, e)
            (record {
              numbered = w.numbered;
              is_pending = kept;
              is_empty_channel = w.is_empty_channel;
            })
      | inr (c, e) ↦
          rw (handle_control_response, e, deliver, o.free id c e)
            (record {
              numbered = w.numbered;
              is_pending = kept;
              is_empty_channel = slot_of-put c ch resp p.mailbox ∙ other c e;
            })
    ]
  where
    other :
        (c : ℕ)
        → lookup resp.request_id p.pending ≡ some c
        → (if c == ch then some resp else slot_of ch p.mailbox) ≡ none
    other c e = elim (Bool-cases (c == ch)) [
      | inl at ↦ absurd (
          ground (
            arith,
            apart,
            (same_iff resp.request_id (request_id_of n)).1 (
                o.unshared resp.request_id (request_id_of n) ch (e ∙ ap some ((==_iff c ch).0 at))
                  w.is_pending),
          ))
      | inr off ↦ rw off w.is_empty_channel
    ]

take-Waits : (p : ClaudeProcess) (c n k ch : ℕ) → Waits p n k ch → Waits (receive p c).0 n k ch
unfolding receive
take-Waits p c n k ch w = elim (Option-cases (slot_of c p.mailbox)) [
  | inl e ↦ rw (receive, e) w
  | inr (r, e) ↦
      rw (receive, e)
        (record {
          numbered = w.numbered;
          is_pending = w.is_pending;
          is_empty_channel = ground (arith, slot_of-drain c ch p.mailbox, w.is_empty_channel);
        })
]

-- `more` counts the requests that are still to come.
run-Waits :
    (p : ClaudeProcess) (ss : List ProcessStep) (n k ch : ℕ)
    → IsOrderly p
    → n < 2 ^ 64
    → k + count is_sending ss < 2 ^ 64
    → all_spare (request_id_of n) ch ss ≡ true
    → Waits p n k ch
    → (m : ℕ) × Waits (run p ss) n m ch
unfolding run step
run-Waits p [] n k ch o hn hk h w = (k, w)
run-Waits p (requests ∷ ss) n k ch o hn hk h w =
    run-Waits (send_request p).0 ss n (k + 1) ch (unfold step in step-IsOrderly p requests o) hn
      (omega (arith, hk)) h (request-Waits p n k ch hn (omega (arith, hk)) w)
run-Waits p (responds resp ∷ ss) n k ch o hn hk h w =
    run-Waits (handle_control_response p resp).0 ss n k ch
      (unfold step in step-IsOrderly p (responds resp) o) hn hk (ground (arith, h))
      (response-Waits p resp n k ch o (ground (arith, h)) w)
run-Waits p (takes c ∷ ss) n k ch o hn hk h w =
    run-Waits (receive p c).0 ss n k ch (unfold step in step-IsOrderly p (takes c) o) hn hk
      (ground (arith, h)) (take-Waits p c n k ch w)
run-Waits p (leaves j ∷ ss) n k ch o hn hk h w =
    run-Waits (give_up p j) ss n k ch (unfold step in step-IsOrderly p (leaves j) o) hn hk
      (ground (arith, h))
      (unfold give_up in
        record {
          numbered = w.numbered;
          is_pending = ground (arith, h, lookup-delete j (request_id_of n) p.pending, w.is_pending);
          is_empty_channel = w.is_empty_channel;
        })

send_request-Waits :
    (p : ClaudeProcess)
    → IsOrderly p
    → Waits (send_request p).0 ((p.req_seq + 1) % 2 ^ 64) 0 (send_request p).2
unfolding send_request
send_request-Waits p o =
    let id = request_id_of ((p.req_seq + 1) % 2 ^ 64) in
    record {
      numbered = omega arith;
      is_pending = lookup-insert id id p.channels p.pending ∙ rw (same_refl id) refl;
      is_empty_channel = o.unused p.channels (omega arith);
    }

-- No step takes what stands in the channel.
abbrev pub untaken : ℕ → List ProcessStep → Bool
untaken ch [] = true
untaken ch (takes c ∷ ss) = not (c == ch) && untaken ch ss
untaken ch (_ ∷ ss) = untaken ch ss

step_holds :
    (p : ClaudeProcess) (s : ProcessStep) (ch : ℕ) (resp : CtlResponse)
    → untaken ch (s ∷ []) ≡ true
    → slot_of ch p.mailbox ≡ some resp
    → slot_of ch (step p s).mailbox ≡ some resp
unfolding step send_request handle_control_response deliver receive give_up
step_holds p requests ch resp h e = e
step_holds p (responds r) ch resp h e = elim (Option-cases (lookup r.request_id p.pending)) [
  | inl none_waits ↦ rw (step, handle_control_response, none_waits) e
  | inr (c, f) ↦ elim (Option-cases (slot_of c p.mailbox)) [
    | inr (old, full) ↦ rw (step, handle_control_response, f, deliver, full) e
    | inl free ↦
        rw (step, handle_control_response, f, deliver, free)
          (slot_of-put c ch r p.mailbox ∙ other c free)
  ]
]
  where
    other :
        (c : ℕ)
        → slot_of c p.mailbox ≡ none
        → (if c == ch then some r else slot_of ch p.mailbox) ≡ some resp
    other c free = elim (Bool-cases (c == ch)) [
      | inl at ↦
          absurd
            (none-ne-some resp (sym free ∙ ap (λ k. slot_of k p.mailbox) ((==_iff c ch).0 at) ∙ e))
      | inr off ↦ rw off e
    ]
step_holds p (takes c) ch resp h e = elim (Option-cases (slot_of c p.mailbox)) [
  | inl none_there ↦ rw (step, receive, none_there) e
  | inr (r, f) ↦ rw (step, receive, f) (ground (arith, h, slot_of-drain c ch p.mailbox, e))
]
step_holds p (leaves j) ch resp h e = e

run_holds :
    (p : ClaudeProcess) (ss : List ProcessStep) (ch : ℕ) (resp : CtlResponse)
    → untaken ch ss ≡ true
    → slot_of ch p.mailbox ≡ some resp
    → slot_of ch (run p ss).mailbox ≡ some resp
unfolding run
run_holds p [] ch resp h e = e
run_holds p (s ∷ ss) ch resp h e =
    run_holds (step p s) ss ch resp (later s h) (step_holds p s ch resp (now s h) e)
  where
    now : (s : ProcessStep) → untaken ch (s ∷ ss) ≡ true → untaken ch (s ∷ []) ≡ true
    now requests h = refl
    now (responds r) h = refl
    now (takes c) h = ground arith
    now (leaves j) h = refl

    later : (s : ProcessStep) → untaken ch (s ∷ ss) ≡ true → untaken ch ss ≡ true
    later requests h = h
    later (responds r) h = h
    later (takes c) h = ground arith
    later (leaves j) h = h

response_held :
    (p : ClaudeProcess) (n k ch : ℕ) (resp : CtlResponse)
    → Waits p n k ch
    → resp.request_id ≡ request_id_of n
    → slot_of ch (step p (responds resp)).mailbox ≡ some resp
unfolding step handle_control_response deliver
response_held p n k ch resp w e =
    let pending : lookup resp.request_id p.pending ≡ some ch =
      ap (λ i. lookup i p.pending) e ∙ w.is_pending in
    rw (step, handle_control_response, pending, deliver, w.is_empty_channel)
      (slot_of-put ch ch resp p.mailbox ∙ ground arith)

-- The process after steps, a request, other steps, a response, and steps again.
abbrev pub answered_process :
    List ProcessStep → List ProcessStep → CtlResponse → List ProcessStep → ClaudeProcess
answered_process before during resp after =
    let sent = (send_request (run new_process before)).0 in
    run (step (run sent during) (responds resp)) after

-- A request is sent after any steps, also after so many that the numbers of requests have wrapped;
-- then come other steps, with fewer than 2^64 requests and none of them a response to this one, its
-- giving up or a receive from its channel, then the response with its id, and then any steps but
-- that its channel is not received from. Then its caller gets the answer that this response is.
pub request_answered :
    (before during after : List ProcessStep) (id : Text) (ch : ℕ) (resp : CtlResponse)
    → (send_request (run new_process before)).1 ≡ id
    → (send_request (run new_process before)).2 ≡ ch
    → resp.request_id ≡ id
    → count is_sending during < 2 ^ 64
    → all_spare id ch during ≡ true
    → untaken ch after ≡ true
    → (receive (answered_process before during resp after) ch).1 ≡ some (answer_of resp)
unfolding receive send_request
request_answered before during after id ch resp is_id is_ch answers few quiet quiet_after =
    let p = run new_process before in
    let p1 = (send_request p).0 in
    let n = (p.req_seq + 1) % 2 ^ 64 in
    let o = run-IsOrderly new_process before new-IsOrderly in
    let o1 : IsOrderly p1 = unfold step in step-IsOrderly p requests o in
    let waits : Waits p1 n 0 ch = subst (Waits p1 n 0) is_ch (send_request-Waits p o) in
    let quiet' : all_spare (request_id_of n) ch during ≡ true = rw (sym is_id) at quiet in
    let (k, waits') =
      run-Waits p1 during n 0 ch o1 (omega arith) (omega (arith, few)) quiet' waits in
    let held =
      run_holds (step (run p1 during) (responds resp)) after ch resp quiet_after
        (response_held (run p1 during) n k ch resp waits' (answers ∙ sym is_id)) in
    rw (receive, held) refl
