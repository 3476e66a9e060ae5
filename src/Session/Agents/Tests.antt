-- ===== src/Session/Agents/Tests.antt =====
-- A run of the sub-agent table of pkg/monetdroid/session.go.
use monetdroid.Prelude.{◌≡◌, refl, false, List, [], ◌∷◌, codes, same}
use monetdroid.Prelude.Maps.{has, delete, insert}
use monetdroid.Session.Agents.{no_agents, start_agent, finish_agent, mark_agent_background}
use monetdroid.Session.Agents.Depth.{
  AgentOp, start, finish, mark, HasDepth, agent_run, agent_step, runs_after_all, agent_run_depth,
}

abbrev ops : List AgentOp
ops =
    start (codes "a") (codes "look")
    ∷ start (codes "b") []
    ∷ start (codes "a") []
    ∷ mark (codes "a")
    ∷ finish (codes "a")
    ∷ finish (codes "a")
    ∷ []

abbrev two_starts : List AgentOp
two_starts = start (codes "a") (codes "look") ∷ start (codes "a") [] ∷ []

twice_is_one : (agent_run no_agents two_starts).agent_depth ≡ 1
unfolding agent_run agent_step start_agent finish_agent mark_agent_background insert delete same
twice_is_one = refl

agent_run_depth_example :
    HasDepth (agent_run no_agents ops)
    × (has (codes "b") (agent_run no_agents ops).agent_tool_ids
        ≡ runs_after_all (codes "b") false ops)
agent_run_depth_example = agent_run_depth ops (codes "b")
