-- ===== src/Users/Role.antt =====
-- app/domain/users/models.py, class Role
use orchestract.Common.{
  ℕ, Option, Text, is_empty, strip, slugify, Result, ok, ◌>>◌, raise_if, empty_role_name,
}

pub record Role : Type 0 where
  pub id : ℕ
  pub organization_id : ℕ
  pub name : Text
  pub slug : Text
  pub description : Option Text
  pub agent_id : Option ℕ

-- Role.create; `id` is the one that the database gives.
unfoldable pub create : ℕ → ℕ → Text → Option Text → Option ℕ → Result Role
create id organization_id name description agent_id =
    let stripped = strip name in
    do
      raise_if (is_empty stripped) empty_role_name
      ok (record {
        id = id;
        organization_id = organization_id;
        name = stripped;
        slug = slugify stripped;
        description = description;
        agent_id = agent_id;
      })

unfoldable pub rename : Text → Role → Result Role
rename new_name r =
    let stripped = strip new_name in
    do
      raise_if (is_empty stripped) empty_role_name
      ok (record r { name = stripped; slug = slugify stripped })

unfoldable pub set_description : Option Text → Role → Role
set_description description r = record r { description = description }

unfoldable pub set_agent : Option ℕ → Role → Role
set_agent agent_id r = record r { agent_id = agent_id }
