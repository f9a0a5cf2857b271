-- ===== src/Soar/Mapper.antt =====
-- soar-service/src/playbook/mapper.ts: from YAML text to a playbook.
-- yaml, ajv, zod, the file system and the clock are parameters.

pub mod Laws
mod Tests
use Prim.Native.Char.{code}
use walmart_assignment.Base.{
  String, ℕ, zero, suc, Bool, true, false, ◌&&◌, Option, none, some, List, [], ◌∷◌, ◌++◌, map, ◌==◌,
  if◌then◌else◌,
}
use walmart_assignment.Base.Text.{◌&◌, str_eq, includes}
use walmart_assignment.Base.Json
use walmart_assignment.Base.Json.{Json, null, bool, str, arr, keys, items, get}
use walmart_assignment.Base.Js.{
  Exn, error, Outcome, ok, thrown, Action, pure, throw, ◌>>=◌, ◌>>◌, call, or_throw, for_each,
}
use walmart_assignment.Soar.Playbook.{Step, step_id, Playbook}

-- A path that `findUnknown` reports, before its parts are joined by dots.
pub data Unknown : Type 0 where
  root : String → Unknown
  trigger : String → Unknown
  of_step : ℕ → String → Unknown

-- `for (const k of keys) if (!allowed.has(k)) unknown.push(...)`.
abbrev extra : (String → Unknown) → List String → List String → List Unknown
extra path allowed [] = []
extra path allowed (k ∷ ks) =
    let rest = extra path allowed ks in if includes k allowed then rest else path k ∷ rest

abbrev pub root_keys : List String
root_keys = "version" ∷ "id" ∷ "name" ∷ "description" ∷ "triggers" ∷ "steps" ∷ "createdAt" ∷ []

abbrev pub trigger_keys : List String
trigger_keys = "class" ∷ "severity" ∷ []

abbrev of_type : String → List String
of_type t =
    if str_eq t "isolate_host"
    then "id" ∷ "type" ∷ "host" ∷ []
    else if str_eq t "reset_password"
    then "id" ∷ "type" ∷ "host" ∷ "user" ∷ []
    else if str_eq t "notify"
    then "id" ∷ "type" ∷ "channel" ∷ "target" ∷ "message" ∷ []
    else "id" ∷ "type" ∷ []

-- The `switch (s.type)`.
abbrev pub allowed_keys : Option Json → List String
allowed_keys (some (str t)) = of_type t
allowed_keys _ = "id" ∷ "type" ∷ []

abbrev pub unknown_of_step : ℕ → Json → List Unknown
unknown_of_step i s = extra (of_step i) (allowed_keys (get "type" s)) (keys s)

abbrev unknown_of_steps : ℕ → List Json → List Unknown
unknown_of_steps i [] = []
unknown_of_steps i (s ∷ ss) = unknown_of_step i s ++ unknown_of_steps (suc i) ss

-- `if (obj.triggers)`: `null`, `false` and a missing field are falsy; a text or a number has no
-- keys in either case.
abbrev unknown_of_triggers : Option Json → List Unknown
unknown_of_triggers none = []
unknown_of_triggers (some t) = extra trigger trigger_keys (keys t)

-- `if (Array.isArray(obj.steps))`.
abbrev unknown_in_steps : Option Json → List Unknown
unknown_in_steps (some (arr vs)) = unknown_of_steps 0 (items vs)
unknown_in_steps _ = []

unfoldable pub find_unknown : Json → List Unknown
find_unknown v =
    extra root root_keys (keys v)
    ++ (unknown_of_triggers (get "triggers" v) ++ unknown_in_steps (get "steps" v))

-- The parts of a JSON pointer: `split('/').slice(1)`, with `~1` and `~0` replaced.
abbrev split_slash : String → String → List String
split_slash cur String.[] = cur ∷ []
split_slash cur (String.◌∷◌ c s) =
    let cut = cur ∷ split_slash "" s in
    let on = split_slash (cur & String.◌∷◌ c "") s in if code c == b'/' then cut else on

-- `p.replace(/~d/g, by)`.
abbrev replace_tilde : ℕ → String → String → String
replace_tilde d by String.[] = ""
replace_tilde d by (String.◌∷◌ c String.[]) = String.◌∷◌ c ""
replace_tilde d by (String.◌∷◌ c (String.◌∷◌ e s)) =
    let cut = by & replace_tilde d by s in
    let on = String.◌∷◌ c (replace_tilde d by (String.◌∷◌ e s)) in
    if (code c == b'~') && (code e == d) then cut else on

abbrev after_first : List String → List String
after_first [] = []
after_first (x ∷ xs) = xs

unfoldable pub pointer_parts : String → List String
pointer_parts p =
    map (λ q. replace_tilde b'0' "~" (replace_tilde b'1' "/" q)) (after_first (split_slash "" p))

-- `new PlaybookValidationError(message, pos)`.
abbrev pub validation_error : String → Option (ℕ × ℕ) → Exn
validation_error m at = record (error m) { pos = at }

-- What the mapper takes from yaml, ajv, zod, fs and the clock.
pub record Loader (Doc Validator W : Type 0) : Type 0 where
  pub read_file : String → Action W String
  pub parse_all : String → List Doc
  pub doc_errors : Doc → List (String × ℕ)
  pub line_pos : String → ℕ → ℕ × ℕ
  pub to_js : Doc → Json
  pub node_start : Doc → List String → Option ℕ
  pub schema_path : String → String
  pub compile : String → Action W Validator
  -- The instance paths of the errors; none if the value is valid.
  pub check : Validator → Json → List String
  pub errors_text : Validator → Json → String
  pub parse_schema : Json → Outcome Playbook
  pub warn : Unknown → W → Unit {0} × W
  pub now_iso : W → String × W

-- The module's `validators`, by version, and the world.
pub record Cache (Validator W : Type 0) : Type 0 where
  pub validators : List (String × Validator)
  pub world : W

abbrev pub cached : {V : Type 0} → String → List (String × V) → Option V
cached v [] = none
cached v ((k, x) ∷ rest) = if str_eq k v then some x else cached v rest

-- The duplicate check: `ids` holds the step ids seen so far.
pub check_ids : {W : Type 0} → List String → List Step → Action W (Unit {0})
check_ids ids [] s = (ok tt, s)
check_ids ids (step ∷ steps) s =
    let rest = check_ids (step_id step ∷ ids) steps s in
    if includes (step_id step) ids
    then (thrown (validation_error ("duplicate step id '" & step_id step & "'") none), s)
    else rest

module _ {Doc Validator W : Type 0} (l : Loader Doc Validator W) where
  -- `getPos`.
  get_pos : String → Doc → String → Option (ℕ × ℕ)
  unfolding pointer_parts
  get_pos text doc path = elim (l.node_start doc (pointer_parts path)) [
    | none ↦ none
    | some at ↦ some (l.line_pos text at)
  ]

  abbrev pub on_world : {A : Type 0} → Action W A → Action (Cache Validator W) A
  on_world m s = let (r, w) = m s.world in (r, record s { world = w })

  unfoldable pub get_validator : String → Action (Cache Validator W) Validator
  get_validator version s = elim (cached version s.validators) [
    | some v ↦ (ok v, s)
    | none ↦
        (do
          schema ← on_world (l.read_file (l.schema_path version))
          v ← on_world (l.compile schema)
          (λ t. (ok v, record t { validators = (version, v) ∷ t.validators })))
          s
  ]

  -- The checks of the parsed YAML itself.
  pub first_doc : String → Outcome Doc
  first_doc text = elim (l.parse_all text) [
    | [] ↦ thrown (validation_error "No document found" none)
    | doc ∷ _ ↦ elim (l.doc_errors doc) [
      | [] ↦ ok doc
      | e ∷ _ ↦ thrown (validation_error e.0 (some (l.line_pos text e.1)))
    ]
  ]

  -- `if (!valid) throw ...`.
  pub check_schema : String → Doc → Validator → Outcome (Unit {0})
  unfolding get_pos
  check_schema text doc v = elim (l.check v (l.to_js doc)) [
    | [] ↦ ok tt
    | path ∷ _ ↦ thrown (validation_error (l.errors_text v (l.to_js doc)) (get_pos text doc path))
  ]

  -- The last lines: the creation time defaults to now.
  pub with_created_at : Playbook → Action (Cache Validator W) Playbook
  with_created_at pb = elim pb.created_at [
    | some _ ↦ pure pb
    | none ↦ do at ← on_world (call l.now_iso); pure (record pb { created_at = some at })
  ]

  -- `loadPlaybook` from the parsed value, from the document and from the text on.
  pub accept : Playbook → Action (Cache Validator W) Playbook
  accept parsed = do check_ids [] parsed.steps; with_created_at parsed

  pub load_value : Doc → Action (Cache Validator W) Playbook
  load_value doc = do
    on_world (for_each (λ p. call (l.warn p)) (find_unknown (l.to_js doc)))
    parsed ← (λ s. (l.parse_schema (l.to_js doc), s))
    accept parsed

  pub load_doc : String → String → Doc → Action (Cache Validator W) Playbook
  load_doc version text doc = do
    v ← get_validator version
    (λ s. (check_schema text doc v, s))
    load_value doc

  unfoldable pub load_text : String → String → Action (Cache Validator W) Playbook
  load_text version text = do doc ← (λ s. (first_doc text, s)); load_doc version text doc

  unfoldable pub load_playbook : Bool → String → String → Action (Cache Validator W) Playbook
  load_playbook is_path source version =
      (if is_path then on_world (l.read_file source) else pure source) >>= load_text version
