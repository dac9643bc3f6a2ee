-- ===== src/Task/Lifecycle.antt =====
-- crawler/task/task.go: the methods of a task.
-- A method returns the changed task; each call of `time.Now` is the argument `now`.
use go_backend_kit.Common.{
  ℕ, String, Bool, true, false, not, ◌&&◌, Option, none, some, List, [], ◌∷◌, ◌++◌, if◌then◌else◌,
  ℤ, pos, ◌+ℤ◌, ltb_ℤ, leb_ℤ, wrap64, Dict, put, Time, Duration, after, sub_time, seconds, length,
  keep_if, str_eq, string_key,
}
use go_backend_kit.Task.Types.{
  pending, queued, running, completed, failed, retrying, cancelled, Value, ExtractRules, no_rules,
  StorageConfig, Details, Task, type_seed, priority_high,
}

abbrev pub no_storage : StorageConfig
no_storage = record {
  kind = "";
  database = "";
  collection = "";
  table = "";
  bucket = "";
  path = "";
  format = "";
  options = [];
}

-- `uuid.New` gives the argument `id`, and `hashURL` (MD5 in hexadecimal) the argument `hash_url`.
unfoldable pub new_task : (String → String) → String → Time → String → String → ℤ → Task
new_task hash_url id now url task_type priority = record {
  id = id;
  url = url;
  hash = hash_url url;
  task_type = task_type;
  priority = priority;
  status = pending;
  node_id = "";
  retry_count = pos 0;
  max_retries = pos 3;
  retry_delay = seconds (pos 5);
  last_error = "";
  created_at = now;
  queued_at = none;
  started_at = none;
  completed_at = none;
  expires_at = none;
  method = "GET";
  headers = [];
  cookies = [];
  timeout = seconds (pos 30);
  metadata = [];
  tags = [];
  details = details;
}
  where
    details : Details
    details = record {
      parent_id = "";
      name = "";
      body = [];
      proxy = "";
      user_agent = "";
      follow_redirect = true;
      extract_rules = no_rules;
      pipeline_id = "";
      storage_conf = no_storage;
      depth = pos 0;
      source = "";
      project_id = "";
      lua_script = "";
      batch_id = "";
      batch_size = pos 0;
      batch_index = pos 0;
      batch_type = "";
      on_success = "";
      on_failure = "";
      on_complete = "";
    }

unfoldable pub new_seed_task : (String → String) → String → Time → String → ExtractRules → Task
unfolding new_task
new_seed_task hash_url id now url extract_rules =
    let t = new_task hash_url id now url type_seed priority_high in
    let d = t.details in record t { details = record d { extract_rules = extract_rules } }

unfoldable pub increment_retry : Task → Task
increment_retry t = record t { retry_count = wrap64 (t.retry_count +ℤ pos 1); status = retrying }

unfoldable pub set_metadata : String → Value → Task → Task
set_metadata key value t = record t { metadata = put key value t.metadata }

-- `copied` is the task after a round trip through JSON, and `id` a fresh identifier.
unfoldable pub clone : (Task → Task) → String → Task → Task
clone copied id t = record (copied t) {
  id = id;
  status = pending;
  retry_count = pos 0;
  node_id = "";
  queued_at = none;
  started_at = none;
  completed_at = none;
}

-- A task with no deadline does not expire.
unfoldable pub is_expired : Time → Task → Bool
is_expired now t = elim t.expires_at [ none ↦ false | some at ↦ after now at ]

unfoldable pub can_retry : Time → Task → Bool
unfolding is_expired
can_retry now t = ltb_ℤ t.retry_count t.max_retries && not (is_expired now t)

unfoldable pub set_error : Time → String → Task → Task
unfolding can_retry increment_retry
set_error now e t =
    let t' : Task = record t { last_error = e } in
    if can_retry now t' then increment_retry t' else record t' { status = failed }

unfoldable pub start : Time → Task → Task
start now t = record t { started_at = some now; status = running }

unfoldable pub complete : Time → Task → Task
complete now t = record t { completed_at = some now; status = completed }

unfoldable pub fail : Time → String → Task → Task
unfolding set_error
fail now e t = set_error now e (record t { completed_at = some now })

unfoldable pub enqueue : Time → Task → Task
enqueue now t = record t { queued_at = some now; status = queued }

unfoldable pub cancel : Task → Task
cancel t = record t { status = cancelled }

unfoldable pub duration : Time → Task → Duration
duration now t = elim t.started_at [
  | none ↦ pos 0
  | some begun ↦ elim t.completed_at [ none ↦ sub_time now begun | some done ↦ sub_time done begun ]
]

unfoldable pub wait_time : Time → Task → Duration
wait_time now t = elim t.queued_at [
  | none ↦ pos 0
  | some waiting ↦ elim t.started_at [
    | none ↦ sub_time now waiting
    | some begun ↦ sub_time begun waiting
  ]
]

-- The loop of `AddTag` and `HasTag`.
unfoldable pub contains_tag : String → List String → Bool
contains_tag tag [] = false
contains_tag tag (t ∷ ts) = if str_eq t tag then true else contains_tag tag ts

unfoldable pub has_tag : String → Task → Bool
unfolding contains_tag
has_tag tag t = contains_tag tag t.tags

unfoldable pub add_tag : String → Task → Task
unfolding contains_tag
add_tag tag t = if contains_tag tag t.tags then t else record t { tags = t.tags ++ tag ∷ [] }

unfoldable pub set_headers : Dict String String → Task → Task
set_headers headers t = record t { headers = headers }

unfoldable pub set_header : String → String → Task → Task
set_header key value t = record t { headers = put key value t.headers }

unfoldable pub set_cookies : Dict String String → Task → Task
set_cookies cookies t = record t { cookies = cookies }

unfoldable pub set_cookie : String → String → Task → Task
set_cookie key value t = record t { cookies = put key value t.cookies }

pub data ValidationError : Type 0 where
  url_required type_required negative_retries timeout_not_positive : ValidationError

-- The task may be changed (the default method is filled in) before a later check fails.
unfoldable pub validate : Task → Task × Option ValidationError
validate t =
    let t' : Task = if str_eq t.method "" then record t { method = "GET" } else t in
    if str_eq t.url ""
    then (t, some url_required)
    else if str_eq t.task_type ""
    then (t, some type_required)
    else if ltb_ℤ t'.max_retries (pos 0)
    then (t', some negative_retries)
    else if leb_ℤ t'.timeout (pos 0)
    then (t', some timeout_not_positive)
    else (t', none)

pub record Batch : Type 0 where
  pub id : String
  pub tasks : List Task
  pub created_at : Time
  pub source : String

unfoldable pub batch_count : Batch → ℕ
batch_count b = length b.tasks

unfoldable pub batch_filter : (Task → Bool) → Batch → List Task
batch_filter predicate b = keep_if predicate b.tasks
