-- ===== src/History/Entry.antt =====
-- The lines of a transcript, pkg/monetdroid/history.go, after decoding. A line that is no JSON of an
-- entry, or is empty, is `none`: all readers skip it.
use monetdroid.Prelude.{
  ◌%◌, ◌^◌, ℕ, ◌+◌, leb, Bool, if◌then◌else◌, Option, none, some, List, [], ◌∷◌, ◌++◌, Text, codes,
  is_empty, take, length,
}
use monetdroid.Types.{is_positive, ImageData, ToolInput}

-- The values of `Type` that the code tests for.
pub data EntryType : Type 0 where
  user assistant result other_entry : EntryType

pub data ContentType : Type 0 where
  text image thinking tool_use tool_result other_content : ContentType

pub record BlockContent : Type 0 where
  pub text : Text
  pub images : List ImageData
  pub raw : Text

pub record ContentBlock : Type 0 where
  pub content_type : ContentType
  pub text : Text
  pub thinking : Text
  pub name : Text
  pub id : Text
  pub parsed : Option ToolInput  -- `ParseToolInput` of the input
  pub tool_use_id : Text
  pub content : BlockContent
  pub source : Option ImageData

pub record MessageContent : Type 0 where
  pub text : Text
  pub blocks : List ContentBlock

pub record JsonlUsage : Type 0 where
  pub input_tokens : ℕ
  pub output_tokens : ℕ
  pub cache_read_input_tokens : ℕ
  pub cache_creation_input_tokens : ℕ

-- The loops over the models of a result: of parseSessionMessages, of parseSessionInfo and of
-- scanTokenUsage.
pub data UsageLoop : Type 0 where
  in_messages in_info in_tokens : UsageLoop

-- `model_usage` lists the names with their context windows in the order in which a loop comes to
-- them: each iteration over a Go map has an order of its own.
pub record JsonlEntry : Type 0 where
  pub cwd : Text
  pub git_branch : Text
  pub entry_type : EntryType
  pub uuid : Text
  pub parent_uuid : Text
  pub is_sidechain : Bool
  pub session_id : Text
  pub result_sid : Text
  pub total_cost : ℕ
  pub model_usage : UsageLoop → List (Text × ℕ)
  pub content : MessageContent
  pub usage : Option JsonlUsage
  pub model : Text

abbrev first_block_text : List ContentBlock → Text
first_block_text [] = []
first_block_text (b ∷ bs) =
    let later = first_block_text bs in
    elim b.content_type [ ContentType.text ↦ if is_empty b.text then later else b.text | _ ↦ later ]

unfoldable pub first_text : MessageContent → Text
unfolding is_empty
first_text c = if is_empty c.text then first_block_text c.blocks else c.text

-- `blockContent.String`.
unfoldable pub block_string : BlockContent → Text
unfolding is_empty
block_string c = if is_empty c.text then c.raw else c.text

-- A sum of ints, as its 64 bits.
unfoldable pub context_sum : JsonlUsage → ℕ
context_sum u =
    (u.input_tokens + u.cache_read_input_tokens + u.cache_creation_input_tokens + u.output_tokens)
    % 2 ^ 64

unfoldable pub truncate : Text → ℕ → Text
truncate s n = if leb (length s) n then s else take n s ++ codes "... (truncated)"

-- The context in use after an entry with the usage: the last sum that is more than 0.
unfoldable pub context_after : Option JsonlUsage → ℕ → ℕ
unfolding context_sum
context_after none used = used
context_after (some u) used = if is_positive (context_sum u) then context_sum u else used

-- The decoded lines.
abbrev pub decoded : List (Option JsonlEntry) → List JsonlEntry
decoded [] = []
decoded (none ∷ lines) = decoded lines
decoded (some e ∷ lines) = e ∷ decoded lines
