-- ===== src/Editing/Tests.antt =====
-- Edits of a session with three user messages, pkg/monetdroid/handlers.go.
use monetdroid.Prelude.{
  ◌≡◌, refl, true, false, not, ◌⊎◌, none, some, List, [], ◌∷◌, Text, codes, keep, same, is_empty,
}
use monetdroid.Prelude.Maps.{get_or}
use monetdroid.Types.{MsgType, ServerMsg, blank, trim_space}
use monetdroid.Session.Chain.{mem, active_set}
use monetdroid.Session.Queue.{QueueEntry}
use monetdroid.Process.{answered, failed, RequestError}
use monetdroid.Editing.{
  UserMsgLoc, find_user_message, Claude, EditSession, cancel_queued, resend, rewind_all, active_of,
  handle_edit_resend,
}
use monetdroid.Editing.Rewinds.{rewound, handle_edit_resend-whole}
use monetdroid.Editing.Locations.{Splits, find_user_message-Splits}
use monetdroid.Editing.Queued.{is_confirmed, cancel_queued-unconfirmed}

abbrev a : Text
a = codes "a"

abbrev b : Text
b = codes "b"

abbrev c : Text
c = codes "c"

abbrev d : Text
d = codes "d"

abbrev user : Text → ServerMsg
user uuid = record (blank MsgType.user_message) { uuid = uuid }

abbrev answer : Text → ServerMsg
answer uuid = record (blank MsgType.text) { uuid = uuid }

-- The messages a and b, the answer c between them, and d at the end.
abbrev log : List ServerMsg
log = user a ∷ answer c ∷ user b ∷ user d ∷ []

abbrev waiting : List QueueEntry
waiting =
    record { uuid = codes "p"; text = []; images = [] }
    ∷ record { uuid = codes "q"; text = []; images = [] }
    ∷ []

abbrev session : EditSession
session = record {
  sender = record {
    labels = record { label = codes "label"; auto_label = false };
    pending = record {
      session_id = codes "s";
      queue = waiting;
      chain = record { tip = d; line_parents = (d, b) ∷ (b, c) ∷ (c, a) ∷ (a, []) ∷ [] };
    };
  };
  log = log;
  model = none;
  cwd = [];
  perm_mode = [];
  cost = record { total_cost_usd = 0; context_used = 0; context_window = 0; model_name = [] };
  diff_stat = record { added = 0; removed = 0 };
}

-- Every rewind succeeds, and only the second of the waiting messages can be cancelled.
abbrev claude : Claude
claude = record {
  is_alive = true;
  rewind = λ _ _. answered (c, []);
  cancel = λ uuid. answered (same uuid (codes "q"));
  has_process = true;
  is_busy = false;
  send = none;
  error_text = λ _. [];
}

-- Where the message b stands: d comes behind it, and the answer c before it.
abbrev place_of_b : UserMsgLoc
place_of_b = record { msg = user b; later_user_uuids = d ∷ []; rewindable = true }

active_lem : active_of session ≡ a ∷ c ∷ b ∷ d ∷ []
unfolding active_set same is_empty get_or
active_lem = refl

found_b : find_user_message log b (active_of session) ≡ some place_of_b
unfolding find_user_message active_set same is_empty get_or
found_b = refl

abbrev edited : EditSession
edited = (resend claude session c (codes "new") (codes "n")).0

edited_lem : (handle_edit_resend claude session b (codes "new") (codes "n")).0 ≡ some edited
unfolding handle_edit_resend find_user_message active_set same is_empty get_or trim_space rewind_all
edited_lem = refl

handle_edit_resend-whole_example :
    ((rewound (handle_edit_resend claude session b (codes "new") (codes "n")).1 ≡ [])
      × (edited.sender ≡ session.sender))
    ⊎ (rewound (handle_edit_resend claude session b (codes "new") (codes "n")).1
        ≡ (d, true) ∷ (b, true) ∷ [])
handle_edit_resend-whole_example =
    handle_edit_resend-whole claude session edited b (codes "new") (codes "n") place_of_b found_b
      edited_lem

-- A rewind that fails drops the session.
dropped_lem :
    (handle_edit_resend
      (record claude { rewind = λ _ _. failed RequestError.timed_out })
      session
      b
      (codes "new")
      (codes "n")).0
    ≡ none
unfolding handle_edit_resend find_user_message active_set same is_empty get_or trim_space rewind_all
dropped_lem = refl

find_user_message-Splits_example :
    (mem b (a ∷ c ∷ b ∷ d ∷ []) ≡ true)
    × ((before : List ServerMsg) × (after : List ServerMsg) × Splits
          (a ∷ c ∷ b ∷ d ∷ [])
          b
          false
          log
          place_of_b
          before
          after)
unfolding find_user_message same is_empty
find_user_message-Splits_example =
    find_user_message-Splits log b (a ∷ c ∷ b ∷ d ∷ []) place_of_b refl

cancel_queued-unconfirmed_example :
    (cancel_queued claude session waiting).0.sender.pending.queue
    ≡ keep (λ e. not (is_confirmed (claude.cancel e.uuid))) waiting
unfolding same
cancel_queued-unconfirmed_example = cancel_queued-unconfirmed claude session (refl, (refl, tt))
