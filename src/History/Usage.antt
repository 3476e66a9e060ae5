-- ===== src/History/Usage.antt =====
-- The readers of the use of tokens in a transcript agree, pkg/monetdroid/history.go.
use monetdroid.Prelude.{
  ℕ, ◌≡◌, refl, ap, sym, ◌∙◌, Bool, true, false, not, if◌then◌else◌, Option, List, [], ◌∷◌, Text,
  codes, same, is_empty, arith, Bool-cases, inl, inr, ltb,
}
use monetdroid.Types.{CostInfo}
use monetdroid.History.Entry.{EntryType, ContentBlock, JsonlEntry, in_messages, in_tokens, decoded}
use monetdroid.History.Transcript.{
  Transcript, empty_transcript, model_after, result_usage, assistant_blocks, parse_typed,
  note_line_parent, parse_entry, parse_entries, parse_session_messages,
}
use monetdroid.History.Links.{picked}
use monetdroid.History.Info.{
  TokenUsage, window_after, result_name, scan_entry, scan_entries, scan_token_usage,
}

abbrev pub tokens_of : CostInfo → TokenUsage
tokens_of u = record {
  context_used = u.context_used;
  context_window = u.context_window;
  model_name = u.model_name;
}

abbrev plain_name : List (Text × ℕ) → Bool
plain_name [] = true
plain_name ((name, _) ∷ _) = not (same name (codes "synthetic"))

-- The two loops come to the models of a result in one order, which they do if there is at most one,
-- and the first model has not the name "synthetic".
abbrev AgreesOn : EntryType → JsonlEntry → Type 0
AgreesOn EntryType.result e =
    (e.model_usage in_tokens ≡ e.model_usage in_messages)
    × (plain_name (e.model_usage in_messages) ≡ true)
AgreesOn _ e = Unit

abbrev pub AllAgreed : List JsonlEntry → Type 0
AllAgreed [] = Unit
AllAgreed (e ∷ es) = AgreesOn e.entry_type e × AllAgreed es

assistant_blocks-usage :
    (bs : List ContentBlock) (st : Transcript) → (assistant_blocks bs st).usage ≡ st.usage
unfolding assistant_blocks
assistant_blocks-usage [] st = refl
assistant_blocks-usage (b ∷ bs) st = assistant_blocks-usage bs _

result_tokens :
    (cost : ℕ) (l : List (Text × ℕ)) (u : CostInfo)
    → plain_name l ≡ true
    → tokens_of (result_usage cost l u) ≡ record {
      context_used = u.context_used;
      context_window = window_after l u.context_window;
      model_name = result_name l u.model_name;
    }
unfolding window_after model_after is_empty
result_tokens cost [] u h = elim (Bool-cases (ltb 0 cost)) [ inl e ↦ rw e refl | inr e ↦ rw e refl ]
result_tokens cost ((name, window) ∷ l) u h = elim (Bool-cases (ltb 0 cost)) [
  | inl e ↦ rw e (ground arith)
  | inr e ↦ rw e (ground arith)
]

typed_tokens :
    (t : EntryType) (e : JsonlEntry) (st : Transcript)
    → AgreesOn t e
    → tokens_of (parse_typed t e st).usage ≡ scan_entry t e (tokens_of st.usage)
unfolding parse_typed scan_entry
typed_tokens EntryType.user e st h = refl
typed_tokens EntryType.assistant e st h = ap tokens_of (assistant_blocks-usage e.content.blocks _)
typed_tokens EntryType.result e st h =
    rw h.0 (result_tokens e.total_cost (e.model_usage in_messages) st.usage h.1)
typed_tokens EntryType.other_entry e st h = refl

either_tokens :
    (side : Bool) (uuid : Text) (noted parsed : Transcript) (tu : TokenUsage)
    → tokens_of parsed.usage ≡ tu
    → tokens_of (picked side uuid noted parsed).usage ≡ (if side then tokens_of noted.usage else tu)
either_tokens true uuid noted parsed tu h = refl
either_tokens false uuid noted parsed tu h = h

entries_tokens :
    (es : List JsonlEntry) (st : Transcript)
    → AllAgreed es
    → tokens_of (parse_entries es st).usage ≡ scan_entries es (tokens_of st.usage)
unfolding parse_entries scan_entries parse_entry note_line_parent
entries_tokens [] st h = refl
entries_tokens (e ∷ es) st h =
    entries_tokens es (parse_entry e st) h.1
    ∙ ap (scan_entries es) (
        either_tokens e.is_sidechain e.uuid (note_line_parent e st)
          (parse_typed e.entry_type e (note_line_parent e st)) _
          (typed_tokens e.entry_type e (note_line_parent e st) h.0))

-- If the scan for the use of tokens and the loading of the session come to the models of each result
-- entry in the same order, and the first of them is never named "synthetic", the scan finds the use
-- of the context, its window and the model that the loading finds.
pub scan_token_usage-parse :
    (lines : List (Option JsonlEntry))
    → AllAgreed (decoded lines)
    → scan_token_usage lines ≡ tokens_of (parse_session_messages lines).usage
unfolding scan_token_usage parse_session_messages
scan_token_usage-parse lines h = sym (entries_tokens (decoded lines) empty_transcript h)
