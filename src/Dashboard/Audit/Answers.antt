-- ===== src/Dashboard/Audit/Answers.antt =====
-- The page against the ledger's own handler.
use walmart_assignment.Base.{◌≡◌, refl, String, none}
use walmart_assignment.Dashboard.Fetch.{error, answered}
use walmart_assignment.Dashboard.Audit.{verify}
use walmart_assignment.Ledger.Routes.{Server, Backend, get_verify, get_verify-none}

-- The page's request names an entry and no hash. Whatever key the ledger's handler takes from its
-- path, whatever the ledger holds and whatever its client does: the page reports that the
-- verification failed, and the ledger was not asked.
pub verify-get_verify :
    {Input D W : Type 0} (b : Backend Input D W) (key_of : String → String) (id : String)
    (s : Server W)
    → verify (λ path. answered (get_verify b (key_of path) none)) id s
      ≡ (record { variant = error; message = "Verification failed" }, s)
unfolding verify
verify-get_verify b key_of id s = rw (get_verify-none b (key_of _)) refl
