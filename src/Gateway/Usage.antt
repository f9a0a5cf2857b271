-- ===== src/Gateway/Usage.antt =====
-- api-gateway/src/middleware/openaiUsage.ts: the rows of the usage header.
-- JSON.parse, the schema and the pool are parameters; the log line is left out. `Num` is a JavaScript
-- number.
use walmart_assignment.Base.{
  ◌≡◌, refl, String, Option, none, some, if◌then◌else◌, Bool-cases, inl, inr,
}
use walmart_assignment.Base.Text.{is_truthy}
use walmart_assignment.Base.Http.{Reply, next, Body}
use walmart_assignment.Base.Js.{
  Outcome, ok, Action, pure, ◌>>=◌, ◌>>◌, try_catch, swallow, Returns, Outcome-cases,
}

-- `usageSchema`.
pub record Usage (Num : Type 0) : Type 0 where
  pub model : String
  pub prompt_tokens : Num
  pub completion_tokens : Num
  pub cost : Num

-- `parse` is `JSON.parse` and the schema after it, `insert` the query.
pub record UsageServices (Num W : Type 0) : Type 0 where
  pub parse : String → Outcome (Usage Num)
  pub insert : Usage Num → Action W (Unit {0})

abbrev pub Answer : Type 0
Answer = Reply (Body (Unit {0}))

module _ {Num W : Type 0} (u : UsageServices Num W) where
  -- The `try` block; the query is started and its failure only logged.
  record_usage : String → Action W (Unit {0})
  record_usage header =
      try_catch (do usage ← (λ w. (u.parse header, w)); swallow (u.insert usage)) (λ e. pure tt)

  meter : Option String → Action W Answer
  unfolding record_usage
  meter none = pure next
  meter (some header) = if is_truthy header then (do record_usage header; pure next) else pure next

  unfoldable pub openai_usage : Option String → Action W Answer
  unfolding meter
  openai_usage header = meter header

  -- What the middleware does with a header.
  pub data Metered (header : Option String) (w : W) : Answer → W → Type 0 where
    inserted :
        (h : String) (usage : Usage Num)
        → header ≡ some h
        → u.parse h ≡ ok usage
        → Metered header w next (u.insert usage w).1
    ignored : Metered header w next w

  meter-Metered : (header : Option String) (w : W) → Returns (Metered header w) (meter header w)
  unfolding meter
  meter-Metered none w = ignored
  meter-Metered (some h) w = elim (Bool-cases (is_truthy h)) [
    | inr empty ↦ rw empty ignored
    | inl given ↦ elim (Outcome-cases (u.parse h)) [
      | inl (usage, b) ↦ rw (given, b) (inserted h usage refl b)
      | inr (e, b) ↦ rw (given, b) ignored
    ]
  ]

  -- The middleware never throws and always lets the request go on: a header that parses is one row,
  -- inserted once, whether or not the query fails; without such a header nothing is done.
  pub openai_usage-Metered :
      (header : Option String) (w : W) → Returns (Metered header w) (openai_usage header w)
  unfolding openai_usage
  openai_usage-Metered header w = meter-Metered header w
