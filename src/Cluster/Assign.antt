-- ===== src/Cluster/Assign.antt =====
-- crawler/distributed/coordinator.go: the message that gives a task to a node.
use go_backend_kit.Common.{
  ℕ, ◌%◌, ◌-◌, ltb, negsuc, String, Bool, ◌||◌, Option, none, some, List, [], ◌∷◌, ℤ, pos, Dict,
  put, string_key, str_eq, if◌then◌else◌,
}
use go_backend_kit.Task.{
  Task, Value, text, flag, moment, entry, other, ExtractRule, ExtractRules, rule, no_rules, rules,
  StorageConfig,
}

pub data SelectorType : Type 0 where
  css xpath json_path regex : SelectorType

pub record RuleMessage : Type 0 where
  pub field_name : String
  pub selector : String
  pub selector_type : SelectorType
  pub attribute : String
  pub multiple : Bool
  pub default_value : String

pub record StorageMessage : Type 0 where
  pub kind : String
  pub database : String
  pub collection : String
  pub table : String
  pub bucket : String
  pub path : String
  pub format : String
  pub options : Dict String String

pub record TaskAssignment : Type 0 where
  pub task_id : String
  pub parent_id : String
  pub url : String
  pub method : String
  pub priority : ℤ
  pub headers : Dict String String
  pub body : List ℕ
  pub max_retries : ℤ
  pub timeout_seconds : ℤ
  pub metadata : Dict String String
  pub task_type : String
  pub cookies : Dict String String
  pub project_id : String
  pub lua_script : String
  pub extract_rules : List RuleMessage
  pub storage_config : Option StorageMessage

-- `fmt.Sprintf` with `%v` and `%d`.
pub record Format : Type 0 where
  pub value_text : Value → String
  pub int_text : ℤ → String

-- The texts among dynamic values; all other values are left out.
unfoldable pub texts_into : Dict String Value → Dict String String → Dict String String
texts_into [] m = m
texts_into ((k, text v) ∷ vs) m = texts_into vs (put k v m)
texts_into ((k, flag v) ∷ vs) m = texts_into vs m
texts_into ((k, moment v) ∷ vs) m = texts_into vs m
texts_into ((k, entry v) ∷ vs) m = texts_into vs m
texts_into ((k, other v) ∷ vs) m = texts_into vs m

unfoldable pub selector_type_of : String → SelectorType
selector_type_of kind =
    if str_eq kind "css"
    then css
    else if str_eq kind "xpath"
    then xpath
    else if str_eq kind "json" || str_eq kind "jsonpath"
    then json_path
    else if str_eq kind "regex"
    then regex
    else css

unfoldable pub rule_message : Format → ExtractRule → RuleMessage
unfolding selector_type_of
rule_message f
      (rule field_name selector kind attribute multiple required default_value transform children) =
    record {
      field_name = field_name;
      selector = selector;
      selector_type = selector_type_of kind;
      attribute = attribute;
      multiple = multiple;
      default_value = f.value_text default_value;
    }

unfoldable pub rule_messages : Format → ExtractRules → List RuleMessage
unfolding rule_message
rule_messages f no_rules = []
rule_messages f (rules r rs) = rule_message f r ∷ rule_messages f rs

unfoldable pub storage_message : StorageConfig → Option StorageMessage
unfolding texts_into
storage_message c =
    if str_eq c.kind ""
    then none
    else some (record {
      kind = c.kind;
      database = c.database;
      collection = c.collection;
      table = c.table;
      bucket = c.bucket;
      path = c.path;
      format = c.format;
      options = texts_into c.options [];
    })

unfoldable pub batch_metadata : Format → Task → Dict String String → Dict String String
batch_metadata f t m =
    if str_eq t.details.batch_id ""
    then m
    else put "batch_type" t.details.batch_type (
        put "batch_index" (f.int_text t.details.batch_index) (
          put "batch_size" (f.int_text t.details.batch_size) (put "batch_id" t.details.batch_id m)))

unfoldable pub source_metadata : Task → Dict String String → Dict String String
source_metadata t m = if str_eq t.details.source "" then m else put "source" t.details.source m

-- The conversion `int32`.
unfoldable pub wrap32 : ℤ → ℤ
wrap32 z = of_word32 (word32 z)
  where
    word32 : ℤ → ℕ
    word32 (pos n) = n % 4294967296
    word32 (negsuc n) = 4294967295 - n % 4294967296

    of_word32 : ℕ → ℤ
    of_word32 w = if ltb w 2147483648 then pos w else negsuc (4294967295 - w)

unfoldable pub assignment_message : Format → Task → TaskAssignment
unfolding wrap32 texts_into rule_messages storage_message batch_metadata source_metadata
assignment_message f t = record {
  task_id = t.id;
  parent_id = t.details.parent_id;
  url = t.url;
  method = (if str_eq t.method "" then "GET" else t.method);
  priority = wrap32 t.priority;
  headers = t.headers;
  body = t.details.body;
  max_retries = wrap32 t.max_retries;
  timeout_seconds = pos 30;
  metadata = source_metadata t (batch_metadata f t (texts_into t.metadata []));
  task_type = t.task_type;
  cookies = t.cookies;
  project_id = t.details.project_id;
  lua_script = t.details.lua_script;
  extract_rules = rule_messages f t.details.extract_rules;
  storage_config = storage_message t.details.storage_conf;
}
