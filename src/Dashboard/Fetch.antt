-- ===== src/Dashboard/Fetch.antt =====
-- What the pages share: the status of an answer, `res.ok`, and the notices they show.
use walmart_assignment.Base.{String, ℕ, Bool, ◌&&◌, leb}
use walmart_assignment.Base.Http.{Reply, respond, next}
use walmart_assignment.Base.Js.{Action, pure, ◌>>=◌}

-- `res.ok`.
abbrev pub is_ok : ℕ → Bool
is_ok status = leb 200 status && leb status 299

pub data Variant : Type 0 where
  success error : Variant

pub record Toast : Type 0 where
  pub variant : Variant
  pub message : String

-- The status that a page gets from a handler; a request that no handler answers gets 404.
abbrev pub status_of : {B : Type 0} → Reply B → ℕ
status_of next = 404
status_of (respond status body) = status

abbrev pub answered : {W B : Type 0} → Action W (Reply B) → Action W ℕ
answered m = do reply ← m; pure (status_of reply)
