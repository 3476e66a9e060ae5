-- ===== src/Session/Todos/Ids.antt =====
-- The ids of the task list, pkg/monetdroid/session.go.
use monetdroid.Prelude.{
  ℕ, suc, ◌+◌, ◌≤◌, ◌≡◌, ◌≢◌, refl, sym, ◌∙◌, ap, true, false, Option, none, some, List, [], ◌∷◌,
  ◌++◌, Text, codes, same_refl, is_empty, is_empty_iff, any, count, count-append, length,
  length-append, arith, Bool-cases, inl, inr,
}
use monetdroid.Types.{Todo, TaskCreateInput, TaskUpdateInput, itoa}
use monetdroid.Session.Todos.{has_id, new_todo, append_task_from_create, update_first, update_task}

abbrev pub update_input : Text → Text → Option TaskUpdateInput
update_input id status = some (record { task_id = id; status = status })

abbrev pub deleted : Text
deleted = codes "deleted"

-- The todos of a list are numbered 1, 2, … from the given number on.
abbrev pub NumberedFrom : ℕ → List Todo → Type 0
NumberedFrom n [] = Unit
NumberedFrom n (t ∷ ts) = (t.id ≡ itoa n) × NumberedFrom (suc n) ts

NumberedFrom-append :
    (n : ℕ) (ts : List Todo) (t : Todo)
    → NumberedFrom n ts
    → t.id ≡ itoa (length ts + n)
    → NumberedFrom n (ts ++ t ∷ [])
NumberedFrom-append n [] t h e = (e ∙ ap itoa (omega arith), tt)
NumberedFrom-append n (x ∷ ts) t h e =
    (h.0, NumberedFrom-append (suc n) ts t h.1 (e ∙ ap itoa (omega arith)))

-- As long as tasks are only created, the list is numbered as the CLI numbers its tasks.
pub append_task_from_create-NumberedFrom :
    (ts : List Todo) (input : Option TaskCreateInput)
    → NumberedFrom 1 ts
    → NumberedFrom 1 (append_task_from_create ts input)
unfolding append_task_from_create
append_task_from_create-NumberedFrom ts none h = h
append_task_from_create-NumberedFrom ts (some input) h =
    NumberedFrom-append 1 ts (new_todo ts input) h refl

delete_inner :
    (ts : List Todo) (t : Todo) (id : Text)
    → any (has_id id) ts ≡ true
    → (ts' : List Todo) × (update_first (ts ++ t ∷ []) id deleted ≡ ts' ++ t ∷ [])
      × (length ts' + 1 ≡ length ts)
unfolding update_first
delete_inner [] t id h = absurd (ground arith)
delete_inner (x ∷ ts) t id h = elim (Bool-cases (has_id id x)) [
  | inl here ↦ (ts, rw here refl, omega arith)
  | inr there ↦
      let (ts', e, n) = delete_inner ts t id (rw there at h) in
      (x ∷ ts', rw (there, e) refl, omega arith)
]

-- After a task before the last one, with a nonempty id, was deleted from a list whose last task
-- has its number as id, the next task that is created gets the id of that last task: two tasks
-- have one id.
create_after_delete-repeats_id :
    (ts : List Todo) (t : Todo) (id : Text) (input : TaskCreateInput)
    → t.id ≡ itoa (length ts + 1)
    → id ≢ []
    → any (has_id id) ts ≡ true
    → 2
      ≤ count (has_id t.id) (
          append_task_from_create
            (update_task (ts ++ t ∷ []) (update_input id deleted))
            (some input))
unfolding append_task_from_create update_task
create_after_delete-repeats_id ts t id input last named present =
    let (ts', e, n) = delete_inner ts t id present in
    let named' : is_empty id ≡ false = ground (arith, is_empty_iff id) in
    let len : length (ts' ++ t ∷ []) ≡ length ts = length-append ts' (t ∷ []) ∙ n in
    let fresh : itoa (length (ts' ++ t ∷ []) + 1) ≡ t.id = ap (λ k. itoa (k + 1)) len ∙ sym last in
    rw
      (
        named',
        e,
        count-append (has_id t.id) (ts' ++ t ∷ []) (new_todo (ts' ++ t ∷ []) input ∷ []),
        count-append (has_id t.id) ts' (t ∷ []),
        fresh,
        same_refl t.id,
      )
      (omega arith)
