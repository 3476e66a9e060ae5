-- ===== src/Session/BashSlot/Owner.antt =====
-- Whose output a browser gets, pkg/monetdroid/session.go.
use monetdroid.Prelude.{
  ℕ, ◌≡◌, ◌≢◌, refl, Bool, true, not, ◌&&◌, ◌||◌, none, some, List, [], ◌∷◌, Text, same, same_iff,
  is_empty, is_empty_iff, arith, Bool-cases, inl, inr, ◌⊎◌,
}
use monetdroid.Session.BashSlot.{
  BashSlot, no_bash, store_outstanding_bash, consume_outstanding_bash, consume_streamed_bash,
  connected_stream,
}

-- A Bash tool_use with its buffer, a connection of bashstreamer, and a tool_result.
pub data SlotOp : Type 0 where
  uses : Text → Text → ℕ → SlotOp
  connects : Text → SlotOp
  answers : Text → SlotOp

unfoldable pub slot_step : BashSlot → SlotOp → BashSlot
unfolding store_outstanding_bash consume_outstanding_bash consume_streamed_bash
slot_step s (uses id cmd buffer) = store_outstanding_bash s id cmd buffer
slot_step s (connects id) = (consume_outstanding_bash s id).0
slot_step s (answers id) = (consume_streamed_bash s id).0

unfoldable pub slot_run : BashSlot → List SlotOp → BashSlot
unfolding slot_step
slot_run s [] = s
slot_run s (op ∷ ops) = slot_run (slot_step s op) ops

-- The tools run one after another: when one is used, no other is being streamed.
abbrev pub is_sequential : BashSlot → List SlotOp → Bool
is_sequential s [] = true
is_sequential s (uses id cmd buffer ∷ ops) =
    is_empty s.streamed_bash_id && is_sequential (slot_step s (uses id cmd buffer)) ops
is_sequential s (connects id ∷ ops) = is_sequential (slot_step s (connects id)) ops
is_sequential s (answers id ∷ ops) = is_sequential (slot_step s (answers id)) ops

-- The last use: the tool, its command and its buffer.
pub record Use : Type 0 where
  pub id : Text
  pub cmd : Text
  pub buffer : ℕ

abbrev pub last_use : Use → List SlotOp → Use
last_use before [] = before
last_use before (uses id cmd buffer ∷ ops) =
    last_use (record { id = id; cmd = cmd; buffer = buffer }) ops
last_use before (_ ∷ ops) = last_use before ops

-- The ids and the buffer of a slot are those of the last use.
abbrev OwnedBy : Use → BashSlot → Type 0
OwnedBy u s =
    ((s.streamed_bash_id ≡ []) ⊎ (s.streamed_bash_id ≡ u.id))
    × ((s.outstanding_bash_id ≡ []) ⊎ (s.outstanding_bash_id ≡ u.id))
    × ((s.bash_stream_lines ≡ none)
        ⊎ ((s.bash_stream_lines ≡ some u.buffer) × (s.bash_stream_cmd ≡ u.cmd)))

slot_connects-OwnedBy :
    (u : Use) (s : BashSlot) (id : Text) → OwnedBy u s → OwnedBy u (slot_step s (connects id))
unfolding slot_step
slot_connects-OwnedBy u s id (a, b, c) =
    elim (Bool-cases (is_empty s.outstanding_bash_id || not (same s.outstanding_bash_id id))) [
      | inl miss ↦ rw (miss, slot_step) (a, b, c)
      | inr hit ↦ rw (hit, slot_step) (b, inl refl, c)
    ]

slot_answers-OwnedBy :
    (u : Use) (s : BashSlot) (id : Text) → OwnedBy u s → OwnedBy u (slot_step s (answers id))
unfolding slot_step
slot_answers-OwnedBy u s id (a, b, c) = elim (Bool-cases (same s.streamed_bash_id id)) [
  | inl hit ↦ rw (hit, slot_step) (inl refl, b, inl refl)
  | inr miss ↦ rw (miss, slot_step) (a, b, c)
]

slot_run-OwnedBy :
    (u : Use) (s : BashSlot) (ops : List SlotOp)
    → is_sequential s ops ≡ true
    → OwnedBy u s
    → OwnedBy (last_use u ops) (slot_run s ops)
unfolding slot_run
slot_run-OwnedBy u s [] q h = h
slot_run-OwnedBy u s (uses id cmd buffer ∷ ops) q h =
    let idle : is_empty s.streamed_bash_id ≡ true = ground arith in
    slot_run-OwnedBy (record { id = id; cmd = cmd; buffer = buffer })
      (slot_step s (uses id cmd buffer)) ops (ground arith)
      (unfold slot_step in
        (inl ((is_empty_iff s.streamed_bash_id).0 idle), inr refl, inr (refl, refl)))
slot_run-OwnedBy u s (connects id ∷ ops) q h =
    slot_run-OwnedBy u (slot_step s (connects id)) ops q (slot_connects-OwnedBy u s id h)
slot_run-OwnedBy u s (answers id ∷ ops) q h =
    slot_run-OwnedBy u (slot_step s (answers id)) ops q (slot_answers-OwnedBy u s id h)

OwnedBy-connected :
    (u : Use) (s : BashSlot) (id cmd : Text) (buffer : ℕ)
    → OwnedBy u s
    → id ≢ []
    → connected_stream s id ≡ some (buffer, cmd)
    → u ≡ record { id = id; cmd = cmd; buffer = buffer }
unfolding connected_stream
OwnedBy-connected u s id cmd buffer (a, b, inl none_left) named e = absurd (ground arith)
OwnedBy-connected u s id cmd buffer (a, b, inr (lines, command)) named e =
    ground (arith, same_iff s.streamed_bash_id id)

-- As long as Bash tools run one after another, a browser that asks for the stream of a tool with a
-- nonempty id gets a buffer and a command only if the last Bash use was that tool's, with this
-- command and this buffer.
pub connected_stream-last_use :
    (u : Use) (ops : List SlotOp) (id cmd : Text) (buffer : ℕ)
    → is_sequential no_bash ops ≡ true
    → id ≢ []
    → connected_stream (slot_run no_bash ops) id ≡ some (buffer, cmd)
    → last_use u ops ≡ record { id = id; cmd = cmd; buffer = buffer }
connected_stream-last_use u ops id cmd buffer q named e =
    OwnedBy-connected (last_use u ops) (slot_run no_bash ops) id cmd buffer
      (slot_run-OwnedBy u no_bash ops q (inl refl, inl refl, inl refl)) named e
