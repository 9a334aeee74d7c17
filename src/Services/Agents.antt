-- ===== src/Services/Agents.antt =====
-- app/application/agent_service.py
use orchestract.Common.{
  ℕ, Bool, Option, some, ◌==◌, if◌then◌else◌, Text, text, Result, ok, ◌>>=◌, ◌>>◌, or_raise,
  not_found, agent, organization, integrity_error,
}
use orchestract.Session.{select_where}
use orchestract.Tenancy.Plans.{plan_limits, check_limit}
use orchestract.Agents.{Agent}
use orchestract.Agents as Agents
use orchestract.Services.{Store, limit_message}

abbrev pub is_agent_of : ℕ → Agent → Bool
is_agent_of organization_id a = a.organization_id == organization_id

module _ {S : Type 0} (store : Store S) where
  unfoldable pub create_agent : ℕ → Text → Option Text → S → Result (Agent × S)
  create_agent organization_id name description s = do
    o ←
        or_raise (store.organizations.get organization_id s)
          (not_found organization organization_id)
    let limits = plan_limits o.plan
    check_limit limits.max_agents (select_where store.agents (is_agent_of organization_id) s)
        (limit_message limits limits.max_agents (text "agents"))
    a ← Agents.create organization_id name description
    (n, s') ← or_raise (store.agents.add a s) integrity_error
    ok (record a { id = some n }, s')

  -- AgentService.get
  unfoldable pub get_agent : ℕ → S → Result Agent
  get_agent agent_id s = or_raise (store.agents.get agent_id s) (not_found agent agent_id)

  unfoldable pub rename_agent : ℕ → Text → S → Result (Agent × S)
  rename_agent agent_id new_name s = do
    a ← get_agent agent_id s
    a' ← Agents.rename new_name a
    ok (a', store.agents.save agent_id a' s)

  -- AgentService.update
  unfoldable pub update_agent : ℕ → Text → Option Text → S → Result (Agent × S)
  update_agent agent_id name description s = do
    a ← get_agent agent_id s
    a' ← Agents.rename name a
    let a'' = Agents.set_description description a'
    ok (a'', store.agents.save agent_id a'' s)

  unfoldable pub set_active : ℕ → Bool → S → Result (Agent × S)
  set_active agent_id active s = do
    a ← get_agent agent_id s
    let a' = if active then Agents.activate a else Agents.deactivate a
    ok (a', store.agents.save agent_id a' s)
