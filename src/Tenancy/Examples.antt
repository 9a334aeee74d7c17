-- ===== src/Tenancy/Examples.antt =====
-- The limits of the free plan, on small lists.
use orchestract.Common.{ℕ, ◌≡◌, refl, List, [], ◌∷◌, text, err, plan_limit_exceeded}
use orchestract.Tenancy.Plans.{free, plan_limits, check_limit}

abbrev three_users : List ℕ
three_users = 1 ∷ 2 ∷ 3 ∷ []

free_is_full :
    check_limit (plan_limits free).max_users three_users (text "full")
    ≡ err (plan_limit_exceeded (text "full"))
unfolding check_limit plan_limits
free_is_full = refl
