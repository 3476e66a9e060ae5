-- ===== src/Permissions/Waiting.antt =====
-- A permission request that waits for its answer, pkg/monetdroid/session.go and handlers.go.
use monetdroid.Prelude.{
  ℕ, ◌≤◌, ◌==◌, ==_iff, ◌≡◌, refl, ap, sym, ◌∙◌, ◌⊎◌, Bool, true, false, not, ◌&&◌, ◌||◌,
  if◌then◌else◌, Option, none, some, List, [], ◌∷◌, ◌++◌, Text, arith, any, same, same_iff,
  same_refl, get_elem?, Bool-cases, Option-cases, inl, inr, zero, suc,
}
use mathlib.Core.Option.{some-injective, none-ne-some}
use monetdroid.Prelude.Maps.{Map, lookup, insert, delete, lookup-insert, lookup-delete}
use monetdroid.Prelude.Slots.{Slots, slot_of, put, drain, slot_of-put, slot_of-drain}
use monetdroid.Types.{ServerMsg}
use monetdroid.Process.Scan.{PermissionRequest, PermResponse}
use monetdroid.Permissions.{
  StuckAnswer, PermTable, permission_message, ask_permission, take_response, is_request,
  remove_permission, PermSuggestion, note_suggestions, mode_messages, show_answer, send_response,
  drop_at, resume_answer, handle_perm,
}

-- What happens to the requests: the CLI asks, a call of HandlePermission receives from its channel,
-- the user answers, and a handler that was stuck goes on.
pub data PermOp : Type 0 where
  asks : PermissionRequest → PermOp
  takes : ℕ → PermOp
  answers : Text → Bool → List (Option PermSuggestion) → Text → PermOp
  resumes : ℕ → PermOp

unfoldable pub perm_step : PermTable → PermOp → PermTable
unfolding ask_permission take_response handle_perm resume_answer
perm_step t (asks req) = ask_permission t req
perm_step t (takes ch) = (take_response t ch).0
perm_step t (answers id allow suggestions message) = (handle_perm t id allow suggestions message).0
perm_step t (resumes i) = resume_answer t i

unfoldable pub perm_run : PermTable → List PermOp → PermTable
unfolding perm_step
perm_run t [] = t
perm_run t (op ∷ ops) = perm_run (perm_step t op) ops

-- No request has the id of an earlier one.
abbrev pub asks_once : List Text → List PermOp → Bool
asks_once seen [] = true
asks_once seen (asks req ∷ ops) =
    not (any (same req.request_id) seen) && asks_once (req.request_id ∷ seen) ops
asks_once seen (_ ∷ ops) = asks_once seen ops

-- A channel that is in the map and empty.
abbrev pub is_free : Option ℕ → Slots PermResponse → Bool
is_free none cs = false
is_free (some ch) cs = elim (slot_of ch cs) [ none ↦ true | some _ ↦ false ]

-- The request has a channel, and it is empty.
abbrev pub is_waiting : Text → PermTable → Bool
is_waiting id t = is_free (lookup id t.perm_chans) t.contents

abbrev is_stuck : Text → StuckAnswer → Bool
is_stuck id s = same id s.perm_id

any-append : (p : ServerMsg → Bool) (a b : List ServerMsg) → any p (a ++ b) ≡ (any p a || any p b)
any-append p [] b = refl
any-append p (x ∷ a) b = ground (arith, any-append p a b)

-- Removing the message of one request leaves that of another.
any-remove_permission :
    (id other : Text) (log : List ServerMsg)
    → same other id ≡ false
    → any (is_request id) (remove_permission log other) ≡ any (is_request id) log
unfolding remove_permission
any-remove_permission id other [] ne = refl
any-remove_permission id other (m ∷ log) ne = ground (
  arith,
  any-remove_permission id other log ne,
  same_iff m.perm_id id,
  same_iff m.perm_id other,
  same_iff other id,
)

-- What holds when the ids in `seen` were asked for, each once.
record IsSound (t : PermTable) (seen : List Text) : Type 0 where
  owner : (id : Text) (ch : ℕ) → lookup id t.perm_chans ≡ some ch → slot_of ch t.asking ≡ some id
  made : (ch : ℕ) → t.channels ≤ ch → slot_of ch t.asking ≡ none
  asked : (id : Text) → is_waiting id t ≡ true → any (is_request id) t.log ≡ true
  done : (id : Text) → any (is_stuck id) t.stuck ≡ true → is_waiting id t ≡ false
  stuck_seen : (id : Text) → any (is_stuck id) t.stuck ≡ true → any (same id) seen ≡ true
  chan_seen : (id : Text) (ch : ℕ) → lookup id t.perm_chans ≡ some ch → any (same id) seen ≡ true

-- An entry that is left when one is deleted, and one after a new one.
left :
    (id j : Text) (ch : ℕ) (m : Map ℕ)
    → lookup j (delete id m) ≡ some ch
    → (same id j ≡ false) × (lookup j m ≡ some ch)
left id j ch m e = elim (Bool-cases (same id j)) [
  | inl here ↦ absurd (none-ne-some ch (rw here at (sym (lookup-delete id j m) ∙ e)))
  | inr apart ↦ (apart, rw apart at (sym (lookup-delete id j m) ∙ e))
]

old_or_new :
    (id j : Text) (n ch : ℕ) (m : Map ℕ)
    → lookup j (insert id n m) ≡ some ch
    → ((id ≡ j) × (n ≡ ch)) ⊎ (lookup j m ≡ some ch)
old_or_new id j n ch m e = elim (Bool-cases (same id j)) [
  | inl here ↦
      inl (
        (same_iff id j).0 here,
        some-injective n ch (rw here at (sym (lookup-insert id j n m) ∙ e)),
      )
  | inr apart ↦ inr (rw apart at (sym (lookup-insert id j n m) ∙ e))
]

not_both : (b : Bool) → b ≡ true → b ≡ false → ⊥
not_both true h k = absurd (ground (arith, k))
not_both false h k = absurd (ground (arith, h))

-- A new request with an id that was not used.
ask-IsSound :
    (t : PermTable) (req : PermissionRequest) (seen : List Text)
    → any (same req.request_id) seen ≡ false
    → IsSound t seen
    → IsSound (ask_permission t req) (req.request_id ∷ seen)
unfolding ask_permission
ask-IsSound t req seen fresh o =
    let id = req.request_id in
    let message = permission_message t req ∷ [] in
    record {
      owner = λ j ch e. elim (old_or_new id j t.channels ch t.perm_chans e) [
        | inl (a, b) ↦ slot_of-put t.channels ch id t.asking ∙ ground (arith, a, b)
        | inr e' ↦ slot_of-put t.channels ch id t.asking ∙ old j ch e'
      ];
      made = λ ch h.
          ground (arith, slot_of-put t.channels ch id t.asking, o.made ch (omega (arith, h)), h);
      asked = λ j w. elim (Bool-cases (same id j)) [
        | inl here ↦ ground (arith, any-append (is_request j) t.log message, here, same_iff id j)
        | inr apart ↦
            ground (arith, any-append (is_request j) t.log message, o.asked j (waited j apart w))
      ];
      done = λ j h. elim (Bool-cases (same id j)) [
        | inl here ↦ absurd (
            not_both (any (same id) seen)
              (ap (λ x. any (same x) seen) ((same_iff id j).0 here) ∙ o.stuck_seen j h) fresh)
        | inr apart ↦
            ap (λ c. is_free c t.contents) (lookup-insert id j t.channels t.perm_chans)
            ∙ rw apart (o.done j h)
      ];
      stuck_seen = λ j h. ground (arith, o.stuck_seen j h);
      chan_seen = λ j ch e. elim (old_or_new id j t.channels ch t.perm_chans e) [
        | inl (a, _) ↦ ground (arith, a, same_refl j)
        | inr e' ↦ ground (arith, o.chan_seen j ch e')
      ];
    }
  where
    old :
        (j : Text) (ch : ℕ)
        → lookup j t.perm_chans ≡ some ch
        → (if t.channels == ch then some req.request_id else slot_of ch t.asking) ≡ some j
    old j ch e = elim (Bool-cases (t.channels == ch)) [
      | inl at ↦ absurd (
          none-ne-some j
            (sym (o.made ch (omega (arith, (==_iff t.channels ch).0 at))) ∙ o.owner j ch e))
      | inr off ↦ rw off (o.owner j ch e)
    ]

    waited :
        (j : Text)
        → same req.request_id j ≡ false
        → is_free (lookup j (insert req.request_id t.channels t.perm_chans)) t.contents ≡ true
        → is_waiting j t ≡ true
    waited j apart w =
        let same_entry : lookup j (insert req.request_id t.channels t.perm_chans)
            ≡ lookup j t.perm_chans =
          lookup-insert req.request_id j t.channels t.perm_chans ∙ rw apart refl in
        sym (ap (λ c. is_free c t.contents) same_entry) ∙ w

-- The call with the channel receives, and its entry in the map goes.
received-IsSound :
    (t : PermTable) (ch : ℕ) (id : Text) (seen : List Text)
    → slot_of ch t.asking ≡ some id
    → IsSound t seen
    → IsSound
        (record t {
          perm_chans = delete id t.perm_chans;
          contents = drain ch t.contents;
          asking = drain ch t.asking;
        })
        seen
received-IsSound t ch id seen is_owner o = record {
  owner = λ j d e.
      let (apart, e') = left id j d t.perm_chans e in
      slot_of-drain ch d t.asking ∙ rw (other j d apart e') (o.owner j d e');
  made = λ d h. ground (arith, slot_of-drain ch d t.asking, o.made d h);
  asked = λ j w. o.asked j (waited j w);
  done = λ j h.
      elim (Bool-cases (is_free (lookup j (delete id t.perm_chans)) (drain ch t.contents))) [
        | inl w ↦ absurd (not_both (is_waiting j t) (waited j w) (o.done j h))
        | inr e ↦ e
      ];
  stuck_seen = o.stuck_seen;
  chan_seen = λ j d e. o.chan_seen j d (left id j d t.perm_chans e).1;
}
  where
    other :
        (j : Text) (d : ℕ) → same id j ≡ false → lookup j t.perm_chans ≡ some d → (ch == d) ≡ false
    other j d apart e = elim (Bool-cases (ch == d)) [
      | inr off ↦ off
      | inl at ↦
          let owned : some id ≡ some j =
            sym is_owner ∙ ap (λ c. slot_of c t.asking) ((==_iff ch d).0 at) ∙ o.owner j d e in
          absurd (not_both (same id j) ((same_iff id j).1 (some-injective id j owned)) apart)
    ]

    waited :
        (j : Text)
        → is_free (lookup j (delete id t.perm_chans)) (drain ch t.contents) ≡ true
        → is_waiting j t ≡ true
    waited j w = elim (Option-cases (lookup j (delete id t.perm_chans))) [
      | inl e ↦ absurd (ground (arith, ap (λ c. is_free c (drain ch t.contents)) e, w))
      | inr (d, e) ↦
          let (apart, e') = left id j d t.perm_chans e in
          let slots : slot_of d (drain ch t.contents) ≡ slot_of d t.contents =
            slot_of-drain ch d t.contents ∙ rw (other j d apart e') refl in
          ap (λ c. is_free c t.contents) e'
          ∙ sym (ap (λ (x : Option PermResponse). elim x [ none ↦ true | some _ ↦ false ]) slots)
          ∙ sym (ap (λ c. is_free c (drain ch t.contents)) e)
          ∙ w
    ]

take-IsSound :
    (t : PermTable) (ch : ℕ) (seen : List Text)
    → IsSound t seen
    → IsSound (take_response t ch).0 seen
unfolding take_response
take-IsSound t ch seen o = elim (Option-cases (slot_of ch t.asking)) [
  | inl e ↦ rw (take_response, e) o
  | inr (id, e) ↦ elim (Option-cases (slot_of ch t.contents)) [
    | inl f ↦ rw (take_response, e, f) o
    | inr (r, f) ↦ rw (take_response, e, f) (received-IsSound t ch id seen e o)
  ]
]

-- A response that is put into a channel.
fill-is_free :
    (o : Option ℕ) (ch : ℕ) (r : PermResponse) (cs : Slots PermResponse)
    → is_free o (put ch r cs) ≡ true
    → is_free o cs ≡ true
fill-is_free none ch r cs h = h
fill-is_free (some d) ch r cs h = ground (arith, slot_of-put ch d r cs, h)

fill-IsSound :
    (t : PermTable) (ch : ℕ) (r : PermResponse) (seen : List Text)
    → IsSound t seen
    → IsSound (record t { contents = put ch r t.contents }) seen
fill-IsSound t ch r seen o = record {
  owner = o.owner;
  made = o.made;
  asked = λ j w. o.asked j (fill-is_free (lookup j t.perm_chans) ch r t.contents w);
  done = λ j h. elim (Bool-cases (is_free (lookup j t.perm_chans) (put ch r t.contents))) [
    | inl w ↦ absurd (
        not_both (is_waiting j t) (fill-is_free (lookup j t.perm_chans) ch r t.contents w)
          (o.done j h))
    | inr e ↦ e
  ];
  stuck_seen = o.stuck_seen;
  chan_seen = o.chan_seen;
}

-- The end of the handler for a request that does not wait.
show-IsSound :
    (t : PermTable) (id : Text) (seen : List Text)
    → is_waiting id t ≡ false
    → IsSound t seen
    → IsSound (show_answer t id).0 seen
show-IsSound t id seen none_waits o = record {
  owner = o.owner;
  made = o.made;
  asked = λ j w. elim (Bool-cases (same id j)) [
    | inl here ↦ absurd (
        not_both (is_waiting j t) w
          (ap (λ x. is_waiting x t) (sym ((same_iff id j).0 here)) ∙ none_waits))
    | inr apart ↦ any-remove_permission j id t.log apart ∙ o.asked j w
  ];
  done = o.done;
  stuck_seen = o.stuck_seen;
  chan_seen = o.chan_seen;
}

more-IsSound :
    (t : PermTable) (more : List ServerMsg) (seen : List Text)
    → IsSound t seen
    → IsSound (record t { log = t.log ++ more }) seen
more-IsSound t more seen o = record {
  owner = o.owner;
  made = o.made;
  asked = λ j w. ground (arith, any-append (is_request j) t.log more, o.asked j w);
  done = o.done;
  stuck_seen = o.stuck_seen;
  chan_seen = o.chan_seen;
}

any_stuck-append :
    (p : StuckAnswer → Bool) (a : List StuckAnswer) (s : StuckAnswer)
    → any p (a ++ s ∷ []) ≡ (any p a || p s)
any_stuck-append p [] s = ground arith
any_stuck-append p (x ∷ a) s = ground (arith, any_stuck-append p a s)

-- A handler that gets stuck, for a request that has its response.
stuck-IsSound :
    (t : PermTable) (s : StuckAnswer) (seen : List Text)
    → is_waiting s.perm_id t ≡ false
    → any (same s.perm_id) seen ≡ true
    → IsSound t seen
    → IsSound (record t { stuck = t.stuck ++ s ∷ [] }) seen
stuck-IsSound t s seen none_waits asked_for o = record {
  owner = o.owner;
  made = o.made;
  asked = o.asked;
  done = λ j h. elim (Bool-cases (is_stuck j s)) [
    | inl here ↦ ap (λ x. is_waiting x t) ((same_iff j s.perm_id).0 here) ∙ none_waits
    | inr apart ↦ o.done j (ground (arith, any_stuck-append (is_stuck j) t.stuck s, h, apart))
  ];
  stuck_seen = λ j h. elim (Bool-cases (is_stuck j s)) [
    | inl here ↦ ap (λ x. any (same x) seen) ((same_iff j s.perm_id).0 here) ∙ asked_for
    | inr apart ↦ o.stuck_seen j (ground (arith, any_stuck-append (is_stuck j) t.stuck s, h, apart))
  ];
  chan_seen = o.chan_seen;
}

any-drop_at :
    (p : StuckAnswer → Bool) (i : ℕ) (ss : List StuckAnswer)
    → any p (drop_at i ss) ≡ true
    → any p ss ≡ true
any-drop_at p i [] h = h
any-drop_at p zero (s ∷ ss) h = ground (arith, h)
any-drop_at p (suc i) (s ∷ ss) h = ground (arith, any-drop_at p i ss, h)

any-get_elem? :
    (p : StuckAnswer → Bool) (i : ℕ) (ss : List StuckAnswer) (s : StuckAnswer)
    → get_elem? ss i ≡ some s
    → p s ≡ true
    → any p ss ≡ true
any-get_elem? p i [] s e h = absurd (none-ne-some s e)
any-get_elem? p zero (x ∷ ss) s e h = ground (arith, ap p (some-injective x s e), h)
any-get_elem? p (suc i) (x ∷ ss) s e h = ground (arith, any-get_elem? p i ss s e h)

unstuck-IsSound :
    (t : PermTable) (i : ℕ) (seen : List Text)
    → IsSound t seen
    → IsSound (record t { stuck = drop_at i t.stuck }) seen
unstuck-IsSound t i seen o = record {
  owner = o.owner;
  made = o.made;
  asked = o.asked;
  done = λ j h. o.done j (any-drop_at (is_stuck j) i t.stuck h);
  stuck_seen = λ j h. o.stuck_seen j (any-drop_at (is_stuck j) i t.stuck h);
  chan_seen = o.chan_seen;
}

resume-IsSound :
    (t : PermTable) (i : ℕ) (seen : List Text) → IsSound t seen → IsSound (resume_answer t i) seen
unfolding resume_answer
resume-IsSound t i seen o = elim (Option-cases (get_elem? t.stuck i)) [
  | inl e ↦ rw (resume_answer, e) o
  | inr (s, e) ↦ elim (Option-cases (slot_of s.channel t.contents)) [
    | inr (r, f) ↦ rw (resume_answer, e, f) o
    | inl f ↦
        let o1 =
          fill-IsSound (record t { stuck = drop_at i t.stuck }) s.channel s.response seen
            (unstuck-IsSound t i seen o) in
        let hit = any-get_elem? (is_stuck s.perm_id) i t.stuck s e (same_refl s.perm_id) in
        let full = (fill-IsSound t s.channel s.response seen o).done s.perm_id hit in
        rw (resume_answer, e, f)
          (show-IsSound
            (record t { contents = put s.channel s.response t.contents; stuck = drop_at i t.stuck })
            s.perm_id seen full o1)
  ]
]

send-IsSound :
    (t : PermTable) (id : Text) (resp : PermResponse) (ch : ℕ) (seen : List Text)
    → lookup id t.perm_chans ≡ some ch
    → IsSound t seen
    → IsSound (send_response t id resp ch).0 seen
unfolding send_response
send-IsSound t id resp ch seen at o = elim (Option-cases (slot_of ch t.contents)) [
  | inl e ↦
      let t1 : PermTable = record t { contents = put ch resp t.contents } in
      let full : is_waiting id t1 ≡ false =
        ap (λ c. is_free c t1.contents) at ∙ ground (arith, slot_of-put ch ch resp t.contents) in
      rw (send_response, e) (show-IsSound t1 id seen full (fill-IsSound t ch resp seen o))
  | inr (r, e) ↦
      let full : is_waiting id t ≡ false =
        ap (λ c. is_free c t.contents) at ∙ rw (is_free, e) refl in
      rw (send_response, e)
        (stuck-IsSound t (record { channel = ch; perm_id = id; response = resp }) seen full
          (o.chan_seen id ch at) o)
]

perm-IsSound :
    (t : PermTable) (id : Text) (allow : Bool) (ss : List (Option PermSuggestion)) (message : Text)
    (seen : List Text)
    → IsSound t seen
    → IsSound (handle_perm t id allow ss message).0 seen
unfolding handle_perm
perm-IsSound t id allow ss message seen o =
    let modes = mode_messages t.session_id (note_suggestions ss).1 in
    let t1 : PermTable = record t { log = t.log ++ modes } in
    let o1 : IsSound t1 seen = more-IsSound t modes seen o in
    elim (Option-cases (lookup id t.perm_chans)) [
      | inl e ↦ rw (handle_perm, e) (show-IsSound t id seen (rw (is_free, e) refl) o)
      | inr (ch, e) ↦ elim (Bool-cases (note_suggestions ss).2) [
        | inl fine ↦ rw (handle_perm, e, fine) (send-IsSound t1 id _ ch seen e o1)
        | inr broken ↦ rw (handle_perm, e, broken) o1
      ]
    ]

run_asked_from :
    (t : PermTable) (ops : List PermOp) (seen : List Text) (id : Text)
    → asks_once seen ops ≡ true
    → IsSound t seen
    → is_waiting id (perm_run t ops) ≡ true
    → any (is_request id) (perm_run t ops).log ≡ true
unfolding perm_run
run_asked_from t [] seen id once o = o.asked id
run_asked_from t (asks req ∷ ops) seen id once o =
    run_asked_from (ask_permission t req) ops (req.request_id ∷ seen) id (ground (arith, once))
      (ask-IsSound t req seen (ground (arith, once)) o)
run_asked_from t (takes ch ∷ ops) seen id once o =
    run_asked_from (take_response t ch).0 ops seen id once (take-IsSound t ch seen o)
run_asked_from t (answers j allow ss message ∷ ops) seen id once o =
    run_asked_from (handle_perm t j allow ss message).0 ops seen id once
      (perm-IsSound t j allow ss message seen o)
run_asked_from t (resumes i ∷ ops) seen id once o =
    run_asked_from (resume_answer t i) ops seen id once (resume-IsSound t i seen o)

-- A session without requests.
abbrev pub no_requests : Text → Text → List ServerMsg → PermTable
no_requests session_id cwd log = record {
  session_id = session_id;
  cwd = cwd;
  channels = 0;
  perm_chans = [];
  contents = [];
  asking = [];
  stuck = [];
  log = log;
}

-- In every history of requests with different ids, answers by the user, receives, and handlers that
-- go on after they were stuck, that begins without requests, a request whose channel is in the map
-- and empty has its message in the log of the session, whatever was answered, refused for a broken
-- suggestion or answered twice.
pub perm_run_asked :
    (session_id cwd : Text) (log : List ServerMsg) (ops : List PermOp) (id : Text)
    → asks_once [] ops ≡ true
    → is_waiting id (perm_run (no_requests session_id cwd log) ops) ≡ true
    → any (is_request id) (perm_run (no_requests session_id cwd log) ops).log ≡ true
unfolding lookup slot_of
perm_run_asked session_id cwd log ops id once =
    run_asked_from (no_requests session_id cwd log) ops [] id once (record {
      owner = λ j ch e. absurd (none-ne-some ch e);
      made = λ ch h. refl;
      asked = λ j w. absurd (ground (arith, w));
      done = λ j h. refl;
      stuck_seen = λ j h. h;
      chan_seen = λ j ch e. absurd (none-ne-some ch e);
    })
