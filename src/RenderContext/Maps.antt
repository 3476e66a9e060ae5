-- ===== src/RenderContext/Maps.antt =====
-- The maps of the render context by their definition, and those of the session model,
-- pkg/monetdroid/hub.go and model.go.
use monetdroid.Prelude.{
  ℕ, suc, ◌+◌, ◌≡◌, ◌≢◌, refl, ap, ◌∙◌, Bool, not, ◌&&◌, if◌then◌else◌, Option, none, some, List,
  [], ◌∷◌, Text, same, same_iff, is_empty, is_empty_iff, arith,
}
use monetdroid.Prelude.Maps.{lookup, lookup-insert}
use monetdroid.Types.{ServerMsg}
use monetdroid.RenderContext.{
  RenderContext, is_dormant, is_tool_use, is_tool_result, visit, visit_all, empty_context,
  precompute_render_context,
}

-- The last position of an element that passes.
abbrev pub last_index {ℓ} : {A : Type ℓ} → (A → Bool) → List A → Option ℕ
last_index p [] = none
last_index p (x ∷ xs) = elim (last_index p xs) [
  | some i ↦ some (suc i)
  | none ↦ if p x then some 0 else none
]

-- A tool_use of the main timeline with the id, on the active branch.
abbrev pub is_use_of : Text → List Text → ServerMsg → Bool
is_use_of id active msg =
    is_tool_use msg.msg_type
    && same msg.tool_use_id id
    && is_empty msg.agent_id
    && not (is_dormant active msg)

abbrev pub is_result_of : Text → List Text → ServerMsg → Bool
is_result_of id active msg =
    is_tool_result msg.msg_type
    && same msg.tool_use_id id
    && is_empty msg.agent_id
    && not (is_dormant active msg)

pub visit-active :
    (i : ℕ) (msg : ServerMsg) (rc : RenderContext) → (visit i msg rc).active ≡ rc.active
unfolding visit
visit-active i msg rc = ground arith

pub visit-uses :
    (i : ℕ) (msg : ServerMsg) (rc : RenderContext) (id : Text)
    → id ≢ []
    → lookup id (visit i msg rc).tool_use_indexes
      ≡ (if is_use_of id rc.active msg then some i else lookup id rc.tool_use_indexes)
unfolding visit
visit-uses i msg rc id h = ground (
  arith,
  lookup-insert msg.tool_use_id id i rc.tool_use_indexes,
  same_iff msg.tool_use_id id,
  is_empty_iff msg.tool_use_id,
)

pub visit-results :
    (i : ℕ) (msg : ServerMsg) (rc : RenderContext) (id : Text)
    → id ≢ []
    → lookup id (visit i msg rc).tool_result_indexes
      ≡ (if is_result_of id rc.active msg then some i else lookup id rc.tool_result_indexes)
unfolding visit
visit-results i msg rc id h = ground (
  arith,
  lookup-insert msg.tool_use_id id i rc.tool_result_indexes,
  same_iff msg.tool_use_id id,
  is_empty_iff msg.tool_use_id,
)

pub visit-answers :
    (i : ℕ) (msg : ServerMsg) (rc : RenderContext) (id : Text)
    → id ≢ []
    → lookup id (visit i msg rc).tool_results
      ≡ (if is_result_of id rc.active msg then some msg else lookup id rc.tool_results)
unfolding visit
visit-answers i msg rc id h = ground (
  arith,
  lookup-insert msg.tool_use_id id msg rc.tool_results,
  same_iff msg.tool_use_id id,
  is_empty_iff msg.tool_use_id,
)

-- A position counted from `n` on, or what was known before.
abbrev at_or : ℕ → Option ℕ → Option ℕ → Option ℕ
at_or n none before = before
at_or n (some i) before = some (n + i)

at_or-cons {ℓ} :
    {A : Type ℓ} (n : ℕ) (p : A → Bool) (x : A) (xs : List A) (before : Option ℕ)
    → at_or (n + 1) (last_index p xs) (if p x then some n else before)
      ≡ at_or n (last_index p (x ∷ xs)) before
at_or-cons n p x xs before = ground arith

visit_all-uses :
    (n : ℕ) (log : List ServerMsg) (rc : RenderContext) (id : Text)
    → id ≢ []
    → lookup id (visit_all n log rc).tool_use_indexes
      ≡ at_or n (last_index (is_use_of id rc.active) log) (lookup id rc.tool_use_indexes)
unfolding visit_all
visit_all-uses n [] rc id h = refl
visit_all-uses n (msg ∷ log) rc id h =
    visit_all-uses (n + 1) log (visit n msg rc) id h
    ∙ ap
        (λ a.
          at_or (n + 1) (last_index (is_use_of id a) log)
            (lookup id (visit n msg rc).tool_use_indexes))
        (visit-active n msg rc)
    ∙ ap (at_or (n + 1) (last_index (is_use_of id rc.active) log)) (visit-uses n msg rc id h)
    ∙ at_or-cons n (is_use_of id rc.active) msg log (lookup id rc.tool_use_indexes)

visit_all-results :
    (n : ℕ) (log : List ServerMsg) (rc : RenderContext) (id : Text)
    → id ≢ []
    → lookup id (visit_all n log rc).tool_result_indexes
      ≡ at_or n (last_index (is_result_of id rc.active) log) (lookup id rc.tool_result_indexes)
unfolding visit_all
visit_all-results n [] rc id h = refl
visit_all-results n (msg ∷ log) rc id h =
    visit_all-results (n + 1) log (visit n msg rc) id h
    ∙ ap
        (λ a.
          at_or (n + 1) (last_index (is_result_of id a) log)
            (lookup id (visit n msg rc).tool_result_indexes))
        (visit-active n msg rc)
    ∙ ap (at_or (n + 1) (last_index (is_result_of id rc.active) log)) (visit-results n msg rc id h)
    ∙ at_or-cons n (is_result_of id rc.active) msg log (lookup id rc.tool_result_indexes)

-- The index of a tool_use with a nonempty id in the render context is the position of the last
-- message in the log that is a tool_use with this id on the main timeline and not dormant, and
-- there is no index if there is no such message; the same holds of the index of its result.
pub precompute_indexes :
    (log : List ServerMsg) (active : List Text) (id : Text)
    → id ≢ []
    → (lookup id (precompute_render_context log active).tool_use_indexes
        ≡ last_index (is_use_of id active) log)
      × (lookup id (precompute_render_context log active).tool_result_indexes
          ≡ last_index (is_result_of id active) log)
unfolding precompute_render_context empty_context lookup
precompute_indexes log active id h = (
  visit_all-uses 0 log (empty_context log active) id h
      ∙ at_zero (last_index (is_use_of id active) log),
  visit_all-results 0 log (empty_context log active) id h
      ∙ at_zero (last_index (is_result_of id active) log),
)
  where
    at_zero : (o : Option ℕ) → at_or 0 o none ≡ o
    at_zero none = refl
    at_zero (some i) = ap some (omega arith)
