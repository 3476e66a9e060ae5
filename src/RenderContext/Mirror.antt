-- ===== src/RenderContext/Mirror.antt =====
-- The render context and the session model of the same log agree, pkg/monetdroid/hub.go and model.go.
use monetdroid.Prelude.{
  ℕ, ◌+◌, ◌-◌, ◌≡◌, ◌≢◌, refl, sym, ap, ◌∙◌, Bool, false, ◌&&◌, if◌then◌else◌, Option, some, List,
  [], ◌∷◌, ◌++◌, Text, same, same_iff, is_empty, is_empty_iff, any, length, length-append, arith,
  Bool-cases, inl, inr,
}
use monetdroid.Prelude.Maps.{lookup, lookup-insert}
use monetdroid.Types.{MsgType, ServerMsg}
use monetdroid.Model.{
  SessionModel, ModelBase, initial_model, build_model, apply, apply_all, dispatch, on_tool_use,
  on_tool_result, link_message,
}
use monetdroid.RenderContext.{
  RenderContext, is_dormant, is_tool_use, is_tool_result, visit, visit_all, empty_context,
  precompute_render_context,
}
use monetdroid.RenderContext.Maps.{visit-active, visit-uses, visit-results, visit-answers}

-- What is known of a tool, and what is known after a message.
pub record Known : Type 0 where
  pub used_at : Option ℕ
  pub answered_at : Option ℕ
  pub answer : Option ServerMsg

abbrev pub known : Text → SessionModel → Known
known id m = record {
  used_at = lookup id m.tool_use_indexes;
  answered_at = lookup id m.tool_result_indexes;
  answer = lookup id m.tool_results;
}

abbrev pub rendered : Text → RenderContext → Known
rendered id rc = record {
  used_at = lookup id rc.tool_use_indexes;
  answered_at = lookup id rc.tool_result_indexes;
  answer = lookup id rc.tool_results;
}

abbrev hits : Text → ServerMsg → Bool
hits id msg = same msg.tool_use_id id && is_empty msg.agent_id

abbrev learn : Text → MsgType → ServerMsg → ℕ → Known → Known
learn id t msg i k = record {
  used_at = if is_tool_use t && hits id msg then some i else k.used_at;
  answered_at = if is_tool_result t && hits id msg then some i else k.answered_at;
  answer = if is_tool_result t && hits id msg then some msg else k.answer;
}

link_message-known :
    (id : Text) (msg : ServerMsg) (m : SessionModel) → known id (link_message msg m) ≡ known id m
unfolding link_message
link_message-known id msg m = ground arith

link_message-messages :
    (msg : ServerMsg) (m : SessionModel) → (link_message msg m).messages ≡ m.messages
unfolding link_message
link_message-messages msg m = ground arith

on_tool_use-messages :
    (msg : ServerMsg) (m : SessionModel) → (on_tool_use msg m).messages ≡ m.messages
unfolding on_tool_use
on_tool_use-messages msg m = elim (Bool-cases (is_empty msg.tool_use_id)) [
  | inl e ↦ rw e refl
  | inr e ↦ rw e refl
]

on_tool_result-messages :
    (msg : ServerMsg) (m : SessionModel) → (on_tool_result msg m).messages ≡ m.messages
unfolding on_tool_result
on_tool_result-messages msg m = ground arith

dispatch-messages :
    (t : MsgType) (msg : ServerMsg) (m : SessionModel) → (dispatch t msg m).messages ≡ m.messages
unfolding dispatch
dispatch-messages MsgType.tool_use msg m = on_tool_use-messages msg m
dispatch-messages MsgType.tool_result msg m = on_tool_result-messages msg m
dispatch-messages _ msg m = ground arith

apply-messages :
    (msg : ServerMsg) (m : SessionModel) → (apply m msg).messages ≡ m.messages ++ msg ∷ []
unfolding apply
apply-messages msg m =
    dispatch-messages msg.msg_type msg
      (link_message msg (record m { messages = m.messages ++ msg ∷ [] }))
    ∙ link_message-messages msg (record m { messages = m.messages ++ msg ∷ [] })

module _ (id : Text) (named : id ≢ []) where
  on_tool_use-known :
      (msg : ServerMsg) (m : SessionModel)
      → known id (on_tool_use msg m)
        ≡ learn id MsgType.tool_use msg (length m.messages - 1) (known id m)
  unfolding on_tool_use
  on_tool_use-known msg m = ground (
    arith,
    lookup-insert msg.tool_use_id id (length m.messages - 1) m.tool_use_indexes,
    same_iff msg.tool_use_id id,
    is_empty_iff msg.tool_use_id,
  )

  on_tool_result-known :
      (msg : ServerMsg) (m : SessionModel)
      → known id (on_tool_result msg m)
        ≡ learn id MsgType.tool_result msg (length m.messages - 1) (known id m)
  unfolding on_tool_result
  on_tool_result-known msg m = ground (
    arith,
    lookup-insert msg.tool_use_id id (length m.messages - 1) m.tool_result_indexes,
    lookup-insert msg.tool_use_id id msg m.tool_results,
    same_iff msg.tool_use_id id,
    is_empty_iff msg.tool_use_id,
  )

  dispatch-known :
      (t : MsgType) (msg : ServerMsg) (m : SessionModel)
      → known id (dispatch t msg m) ≡ learn id t msg (length m.messages - 1) (known id m)
  unfolding dispatch
  dispatch-known MsgType.tool_use msg m = on_tool_use-known msg m
  dispatch-known MsgType.tool_result msg m = on_tool_result-known msg m
  dispatch-known _ msg m = ground arith

  visit-rendered :
      (i : ℕ) (msg : ServerMsg) (rc : RenderContext)
      → is_dormant rc.active msg ≡ false
      → rendered id (visit i msg rc) ≡ learn id msg.msg_type msg i (rendered id rc)
  visit-rendered i msg rc awake = ground (
    arith,
    visit-uses i msg rc id named,
    visit-results i msg rc id named,
    visit-answers i msg rc id named,
  )

  apply-known :
      (msg : ServerMsg) (m : SessionModel)
      → known id (apply m msg) ≡ learn id msg.msg_type msg (length m.messages) (known id m)
  unfolding apply
  apply-known msg m =
      let m1 : SessionModel = record m { messages = m.messages ++ msg ∷ [] } in
      let last : length (link_message msg m1).messages - 1 ≡ length m.messages =
        ap (λ l. length l - 1) (link_message-messages msg m1)
        ∙ omega (arith, length-append m.messages (msg ∷ [])) in
      dispatch-known msg.msg_type msg (link_message msg m1)
      ∙ ap (λ n. learn id msg.msg_type msg n (known id (link_message msg m1))) last
      ∙ ap (learn id msg.msg_type msg (length m.messages)) (link_message-known id msg m1)

  visit_all-known :
      (n : ℕ) (log : List ServerMsg) (rc : RenderContext) (m : SessionModel)
      → any (is_dormant rc.active) log ≡ false
      → length m.messages ≡ n
      → rendered id rc ≡ known id m
      → rendered id (visit_all n log rc) ≡ known id (apply_all m log)
  unfolding visit_all apply_all
  visit_all-known n [] rc m awake len e = e
  visit_all-known n (msg ∷ log) rc m awake len e =
      let here : is_dormant rc.active msg ≡ false = ground arith in
      let later : any (is_dormant rc.active) log ≡ false = ground arith in
      visit_all-known (n + 1) log (visit n msg rc) (apply m msg)
        (ap (λ a. any (is_dormant a) log) (visit-active n msg rc) ∙ later)
        (ap length (apply-messages msg m) ∙ omega (arith, length-append m.messages (msg ∷ []), len))
        (visit-rendered n msg rc here
          ∙ ap (learn id msg.msg_type msg n) e
          ∙ ap (λ i. learn id msg.msg_type msg i (known id m)) (sym len)
          ∙ sym (apply-known msg m))

-- If every message of a log is on the active branch or has no uuid, then what the render context
-- holds of a tool with a nonempty id, where it was used, where it was answered and the answer, is
-- what the session model that is built from the log holds of it.
pub precompute-build_model :
    (base : ModelBase) (log : List ServerMsg) (active : List Text) (session_id id : Text)
    → any (is_dormant active) log ≡ false
    → id ≢ []
    → rendered id (precompute_render_context log active)
      ≡ known id (build_model base log session_id)
unfolding precompute_render_context build_model initial_model empty_context
precompute-build_model base log active session_id id awake named =
    visit_all-known id named 0 log (empty_context log active) (initial_model base session_id) awake
      refl refl
