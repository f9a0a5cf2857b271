-- ===== src/Soar/Engine/Handlers.antt =====
-- The handler registry: what `register` adds, what it refuses, what `get` finds.
use walmart_assignment.Base.{◌≡◌, refl, arith, true, false}
use walmart_assignment.Base.Text.{◌&◌}
use walmart_assignment.Base.Js.{ok, thrown, error}
use walmart_assignment.Soar.Playbook.{StepType, isolate_host, reset_password, notify, same_type}
use walmart_assignment.Soar.Engine.{Handler, Registry, type_name, has, register, get_handler}

same_type_refl : (t : StepType) → same_type t t ≡ true
same_type_refl isolate_host = refl
same_type_refl reset_password = refl
same_type_refl notify = refl

-- Registering a handler for a type that has none succeeds; from then on `get` finds that handler
-- for that type, and for every other type finds what it found before.
pub get_handler-register :
    {W : Type 0} (t : StepType) (fn : Handler W) (r : Registry W)
    → has t r ≡ false
    → ((register t fn r).0 ≡ ok tt)
      × (get_handler t (register t fn r).1 ≡ ok fn)
      × ((u : StepType)
          → same_type t u ≡ false
          → get_handler u (register t fn r).1 ≡ get_handler u r)
unfolding register get_handler
get_handler-register t fn r free =
    (ground arith, ground (arith, same_type_refl t), λ u other. ground arith)

-- Registering a type that has a handler throws, and the registry keeps every handler it had.
pub register_twice :
    {W : Type 0} (t : StepType) (fn : Handler W) (r : Registry W)
    → has t r ≡ true
    → register t fn r ≡ (thrown (error ("handler already registered for " & type_name t)), r)
unfolding register
register_twice t fn r taken = rw taken
