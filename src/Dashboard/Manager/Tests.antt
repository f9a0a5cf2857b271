-- ===== src/Dashboard/Manager/Tests.antt =====
-- A role with two permissions, of which one is taken away and another is given.
use walmart_assignment.Base.{◌≡◌, false, true, none, some, List, [], ◌∷◌}
use walmart_assignment.Dashboard.Manager.{Role}
use walmart_assignment.Dashboard.Manager.Render.{Session, manager_view, new_role, revoke, force_mfa}
use walmart_assignment.Dashboard.Manager.Boxes.{buttons, manager_view-buttons}

abbrev role : Role
role = record { id = "r-1"; name = "soc"; permissions = "read" ∷ "write" ∷ [] }

abbrev sessions : List Session
sessions =
    record { id = "s-1"; user_id = "ann"; ip = "10.0.0.1"; active = true }
    ∷ record { id = "s-2"; user_id = "bob"; ip = "10.0.0.2"; active = true }
    ∷ []

-- A request to revoke is pending.
manager_view-buttons_example :
    buttons (manager_view true none true false (some sessions))
    ≡ (some new_role, none)
      ∷ (some (revoke "s-1"), some true)
      ∷ (some (force_mfa "s-1"), some false)
      ∷ (some (revoke "s-2"), some true)
      ∷ (some (force_mfa "s-2"), some false)
      ∷ []
manager_view-buttons_example = manager_view-buttons true none true false sessions
