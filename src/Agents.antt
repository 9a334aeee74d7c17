-- ===== src/Agents.antt =====
-- app/domain/agents/models.py: the departments that own the steps of workflows.
use orchestract.Common.{
  ℕ, Bool, true, false, Option, none, Text, is_empty, strip, slugify, Result, ok, ◌>>◌, raise_if,
  empty_agent_name,
}

pub record Agent : Type 0 where
  pub id : Option ℕ
  pub organization_id : ℕ
  pub name : Text
  pub slug : Text
  pub description : Option Text
  pub is_active : Bool

unfoldable pub create : ℕ → Text → Option Text → Result Agent
create organization_id name description = do
  raise_if (is_empty (strip name)) empty_agent_name
  ok (record {
    id = none;
    organization_id = organization_id;
    name = strip name;
    slug = slugify (strip name);
    description = description;
    is_active = true;
  })

unfoldable pub rename : Text → Agent → Result Agent
rename new_name a = do
  raise_if (is_empty (strip new_name)) empty_agent_name
  ok (record a { name = strip new_name; slug = slugify (strip new_name) })

unfoldable pub set_description : Option Text → Agent → Agent
set_description description a = record a { description = description }

unfoldable pub deactivate : Agent → Agent
deactivate a = record a { is_active = false }

unfoldable pub activate : Agent → Agent
activate a = record a { is_active = true }
