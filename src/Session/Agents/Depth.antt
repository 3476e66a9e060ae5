-- ===== src/Session/Agents/Depth.antt =====
-- The depth counts the agents that run, pkg/monetdroid/session.go.
use monetdroid.Prelude.{
  ◌≡◌, ◌∙◌, ap, refl, Bool, true, false, not, ◌&&◌, ◌||◌, Option, List, [], ◌∷◌, Text, same,
  same_iff, length, arith, Bool-cases, inl, inr,
}
use monetdroid.Prelude.Maps.{
  Map, has, get_or, insert, delete, IsUnique, has-insert, has-delete, insert-IsUnique,
  delete-IsUnique, length-insert, length-delete,
}
use monetdroid.Session.Agents.{
  AgentTable, TaskUsage, no_agents, start_agent, finish_agent, mark_agent_background,
  update_agent_stat,
}

-- `AgentToolIDs` maps no id to false.
abbrev pub AllTrue : Map Bool → Type 0
AllTrue [] = Unit
AllTrue ((k, b) ∷ m) = (b ≡ true) × AllTrue m

insert-AllTrue : (k : Text) (m : Map Bool) → AllTrue m → AllTrue (insert k true m)
unfolding insert
insert-AllTrue k [] h = (refl, tt)
insert-AllTrue k ((j, b) ∷ m) h = elim (Bool-cases (same j k)) [
  | inl here ↦ rw here (refl, h.1)
  | inr there ↦ rw there (h.0, insert-AllTrue k m h.1)
]

delete-AllTrue : (k : Text) (m : Map Bool) → AllTrue m → AllTrue (delete k m)
unfolding delete
delete-AllTrue k [] h = tt
delete-AllTrue k ((j, b) ∷ m) h = elim (Bool-cases (same j k)) [
  | inl here ↦ rw here (delete-AllTrue k m h.1)
  | inr there ↦ rw there (h.0, delete-AllTrue k m h.1)
]

get_or-eq-has : (k : Text) (m : Map Bool) → AllTrue m → get_or k m false ≡ has k m
unfolding get_or has
get_or-eq-has k [] h = refl
get_or-eq-has k ((j, b) ∷ m) h = ground (arith, get_or-eq-has k m h.1)

pub record HasDepth (s : AgentTable) : Type 0 where
  pub counted : s.agent_depth ≡ length s.agent_tool_ids
  pub unique : IsUnique s.agent_tool_ids
  pub all_true : AllTrue s.agent_tool_ids

pub data AgentOp : Type 0 where
  start : Text → Text → AgentOp
  finish : Text → AgentOp
  mark : Text → AgentOp
  progress : Text → Option TaskUsage → Text → Text → AgentOp

unfoldable pub agent_step : AgentTable → AgentOp → AgentTable
agent_step s (start id description) = start_agent s id description
agent_step s (finish id) = finish_agent s id
agent_step s (mark id) = mark_agent_background s id
agent_step s (progress id usage description last_tool) =
    update_agent_stat s id usage description last_tool

unfoldable pub agent_run : AgentTable → List AgentOp → AgentTable
unfolding agent_step
agent_run s [] = s
agent_run s (op ∷ ops) = agent_run (agent_step s op) ops

-- Whether an agent runs after an operation, by what the operation says.
abbrev pub runs_after : Text → Bool → AgentOp → Bool
runs_after id b (start j _) = same j id || b
runs_after id b (finish j) = not (same j id) && b
runs_after id b (mark _) = b
runs_after id b (progress _ _ _ _) = b

abbrev pub runs_after_all : Text → Bool → List AgentOp → Bool
runs_after_all id b [] = b
runs_after_all id b (op ∷ ops) = runs_after_all id (runs_after id b op) ops

pub start_agent-HasDepth :
    (s : AgentTable) (id description : Text) → HasDepth s → HasDepth (start_agent s id description)
unfolding start_agent
start_agent-HasDepth s id description h = elim (Bool-cases (get_or id s.agent_tool_ids false)) [
  | inl running ↦
      rw running (record { counted = h.counted; unique = h.unique; all_true = h.all_true })
  | inr idle ↦
      let new = get_or-eq-has id s.agent_tool_ids h.all_true in
      rw idle (record {
        counted = ground (arith, h.counted, idle, new, length-insert id true s.agent_tool_ids);
        unique = insert-IsUnique id true s.agent_tool_ids h.unique;
        all_true = insert-AllTrue id s.agent_tool_ids h.all_true;
      })
]

pub finish_agent-HasDepth : (s : AgentTable) (id : Text) → HasDepth s → HasDepth (finish_agent s id)
unfolding finish_agent
finish_agent-HasDepth s id h = elim (Bool-cases (get_or id s.agent_tool_ids false)) [
  | inl running ↦
      let known = get_or-eq-has id s.agent_tool_ids h.all_true in
      rw running (record {
        counted =
            ground (arith, h.counted, running, known, length-delete id s.agent_tool_ids h.unique);
        unique = delete-IsUnique id s.agent_tool_ids h.unique;
        all_true = delete-AllTrue id s.agent_tool_ids h.all_true;
      })
  | inr idle ↦ rw idle (record { counted = h.counted; unique = h.unique; all_true = h.all_true })
]

pub agent_step-HasDepth : (s : AgentTable) (op : AgentOp) → HasDepth s → HasDepth (agent_step s op)
unfolding agent_step mark_agent_background update_agent_stat
agent_step-HasDepth s (start id description) h = start_agent-HasDepth s id description h
agent_step-HasDepth s (finish id) h = finish_agent-HasDepth s id h
agent_step-HasDepth s (mark id) h = record {
  counted = h.counted;
  unique = h.unique;
  all_true = h.all_true;
}
agent_step-HasDepth s (progress id usage description last_tool) h = record {
  counted = h.counted;
  unique = h.unique;
  all_true = h.all_true;
}

pub agent_step_runs :
    (s : AgentTable) (op : AgentOp) (id : Text)
    → HasDepth s
    → has id (agent_step s op).agent_tool_ids ≡ runs_after id (has id s.agent_tool_ids) op
unfolding agent_step start_agent finish_agent mark_agent_background update_agent_stat
agent_step_runs s (start j description) id h = ground (
  arith,
  get_or-eq-has j s.agent_tool_ids h.all_true,
  has-insert j id true s.agent_tool_ids,
  same_iff j id,
)
agent_step_runs s (finish j) id h = ground (
  arith,
  get_or-eq-has j s.agent_tool_ids h.all_true,
  has-delete j id s.agent_tool_ids,
  same_iff j id,
)
agent_step_runs s (mark j) id h = refl
agent_step_runs s (progress j usage description last_tool) id h = refl

agent_run_from :
    (s : AgentTable) (ops : List AgentOp) (id : Text)
    → HasDepth s
    → HasDepth (agent_run s ops)
      × (has id (agent_run s ops).agent_tool_ids ≡ runs_after_all id (has id s.agent_tool_ids) ops)
unfolding agent_run
agent_run_from s [] id h = (h, refl)
agent_run_from s (op ∷ ops) id h =
    let (d, e) = agent_run_from (agent_step s op) ops id (agent_step-HasDepth s op h) in
    (d, e ∙ ap (λ b. runs_after_all id b ops) (agent_step_runs s op id h))

-- In every history of starts, finishes, background marks and progress reports, the nesting depth is
-- the number of agents that run, no agent is counted twice, and an agent runs exactly when it was
-- started and not finished since.
pub agent_run_depth :
    (ops : List AgentOp) (id : Text)
    → HasDepth (agent_run no_agents ops)
      × (has id (agent_run no_agents ops).agent_tool_ids ≡ runs_after_all id false ops)
agent_run_depth ops id =
    let (d, e) =
      agent_run_from no_agents ops id (record { counted = refl; unique = tt; all_true = tt }) in
    (d, e ∙ ap (λ b. runs_after_all id b ops) (unfold has in refl))
