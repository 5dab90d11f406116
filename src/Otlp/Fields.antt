-- ===== src/Otlp/Fields.antt =====
-- What the telemetry edge keeps of a record and what it counts: internal/otlp/fields.go, and the records of
-- otlp.go. `strings.ToLower` is the parameter `lower`. A map is an association list.
use costroid.Prelude.{
  ℕ, ◌+◌, ltb, Bool, ◌&&◌, ◌||◌, not, if◌then◌else◌, List, [], ◌∷◌, Option, none, some, Bytes,
  bytes_eq, length, any, codes, has_prefix,
}

-- The counters' labels. `named_content` keys are labels too.
abbrev pub drop_client_cost : Bytes
drop_client_cost = codes "client_cost"

abbrev pub drop_content : Bytes
drop_content = codes "content_other"

abbrev pub drop_unlisted : Bytes
drop_unlisted = codes "unlisted"

abbrev pub drop_oversized : Bytes
drop_oversized = codes "oversized_value"

abbrev pub drop_non_scalar : Bytes
drop_non_scalar = codes "non_scalar_value"

abbrev pub drop_log_body : Bytes
drop_log_body = codes "log.body"

abbrev pub drop_status_message : Bytes
drop_status_message = codes "span.status.message"

abbrev pub drop_email : Bytes
drop_email = codes "user.email"

abbrev pub key_email : Bytes
key_email = codes "user.email"

abbrev pub max_value_bytes : ℕ
max_value_bytes = 1024

abbrev pub contains_key : List Bytes → Bytes → Bool
contains_key keys key = any (λ k. bytes_eq k key) keys

unfoldable pub allowed : List Bytes
allowed =
    codes "service.name"
    ∷ codes "service.version"
    ∷ codes "app.version"
    ∷ codes "vcs.repository.url.full"
    ∷ codes "vcs.change.id"
    ∷ codes "vcs.ref.head.revision"
    ∷ codes "cicd.pipeline.run.id"
    ∷ codes "costroid.cost_basis"
    ∷ codes "costroid.enforcement_grade"
    ∷ codes "gen_ai.provider.name"
    ∷ codes "gen_ai.system"
    ∷ codes "gen_ai.operation.name"
    ∷ codes "gen_ai.request.model"
    ∷ codes "gen_ai.response.model"
    ∷ codes "gen_ai.response.id"
    ∷ codes "gen_ai.conversation.id"
    ∷ codes "session.id"
    ∷ codes "gen_ai.agent.name"
    ∷ codes "gen_ai.agent.version"
    ∷ codes "gen_ai.usage.input_tokens"
    ∷ codes "gen_ai.usage.output_tokens"
    ∷ codes "gen_ai.usage.cache_read.input_tokens"
    ∷ codes "gen_ai.usage.cache_write.input_tokens"
    ∷ codes "gen_ai.usage.reasoning.output_tokens"
    ∷ codes "gen_ai.usage.cache_creation.input_tokens"
    ∷ codes "gen_ai.usage.prompt_tokens"
    ∷ codes "gen_ai.usage.completion_tokens"
    ∷ codes "event.name"
    ∷ codes "model"
    ∷ codes "request_id"
    ∷ codes "speed"
    ∷ codes "input_tokens"
    ∷ codes "output_tokens"
    ∷ codes "cache_read_tokens"
    ∷ codes "cache_creation_tokens"
    ∷ codes "cache_creation_5m_tokens"
    ∷ codes "cache_creation_1h_tokens"
    ∷ codes "codex.usage.reasoning_output_tokens"
    ∷ codes "cursor.api.request.input_tokens"
    ∷ codes "cursor.api.request.output_tokens"
    ∷ codes "cursor.api.request.cache_read_tokens"
    ∷ codes "cursor.api.request.cache_creation_tokens"
    ∷ codes "cursor.conversation.id"
    ∷ []

abbrev pub named_content : List Bytes
named_content =
    codes "gen_ai.input.messages"
    ∷ codes "gen_ai.output.messages"
    ∷ codes "gen_ai.system_instructions"
    ∷ codes "gen_ai.tool.definitions"
    ∷ codes "gen_ai.tool.call.arguments"
    ∷ codes "gen_ai.tool.call.result"
    ∷ codes "gen_ai.prompt"
    ∷ codes "gen_ai.completion"
    ∷ codes "gen_ai.retrieval.query.text"
    ∷ codes "gen_ai.retrieval.documents"
    ∷ codes "prompt"
    ∷ codes "user_prompt"
    ∷ codes "tool_parameters"
    ∷ codes "tool_input"
    ∷ codes "tool_output"
    ∷ codes "tool_result"
    ∷ codes "body"
    ∷ codes "request_body"
    ∷ codes "response_body"
    ∷ codes "http.request.body.content"
    ∷ codes "http.response.body.content"
    ∷ []

abbrev pub client_cost : List Bytes
client_cost =
    codes "cost_usd"
    ∷ codes "gen_ai.usage.cost"
    ∷ codes "gen_ai.cost"
    ∷ codes "cursor.cost.usage"
    ∷ codes "github.copilot.nano_aiu"
    ∷ codes "github.copilot.cost"
    ∷ codes "claude_code.cost.usage"
    ∷ []

abbrev pub content_prefixes : List Bytes
content_prefixes =
    codes "gen_ai.prompt."
    ∷ codes "gen_ai.completion."
    ∷ codes "llm.input_messages"
    ∷ codes "llm.output_messages"
    ∷ codes "llm.prompts"
    ∷ []

abbrev pub content_words : List Bytes
content_words =
    codes "prompt"
    ∷ codes "message"
    ∷ codes "instruction"
    ∷ codes "content"
    ∷ codes "body"
    ∷ codes "argument"
    ∷ codes "completion"
    ∷ codes "tool"
    ∷ []

-- `strings.Contains(text, word)`
unfoldable pub contains : Bytes → Bytes → Bool
contains [] word = has_prefix [] word
contains (c ∷ text) word = has_prefix (c ∷ text) word || contains text word

unfoldable pub drop_label : (Bytes → Bytes) → Bytes → Bytes
unfolding contains
drop_label lower key =
    if bytes_eq key key_email
    then drop_email
    else if contains_key named_content key
    then key
    else if contains_key client_cost key
    then drop_client_cost
    else if any (has_prefix (lower key)) content_prefixes
        || any (contains (lower key)) content_words
    then drop_content
    else drop_unlisted

abbrev pub Attributes : Type 0
Attributes = List (Bytes × Bytes)

-- A map's write.
unfoldable pub put : Bytes → Bytes → Attributes → Attributes
put key text [] = (key, text) ∷ []
put key text ((k, t) ∷ rest) =
    if bytes_eq k key then (k, text) ∷ rest else (k, t) ∷ put key text rest

unfoldable pub value_of : Attributes → Bytes → Option Bytes
value_of [] key = none
value_of ((k, t) ∷ rest) key =
    let later = value_of rest key in if bytes_eq k key then some t else later

-- `attributes.text`: the first of the keys that has a text.
unfoldable pub text_of : Attributes → List Bytes → Bytes
unfolding value_of
text_of attrs [] = []
text_of attrs (key ∷ keys) = elim (value_of attrs key) [
  | none ↦ text_of attrs keys
  | some [] ↦ text_of attrs keys
  | some (c ∷ s) ↦ c ∷ s
]

unfoldable pub merged : Attributes → Attributes → Attributes
unfolding put
merged resource [] = resource
merged resource ((k, t) ∷ own) = merged (put k t resource) own

pub record Collector : Type 0 where
  pub drops : List (Bytes × ℕ)
  pub rejected : ℕ

unfoldable pub add_drop : Bytes → List (Bytes × ℕ) → List (Bytes × ℕ)
add_drop label [] = (label, 1) ∷ []
add_drop label ((l, n) ∷ rest) =
    if bytes_eq l label then (l, n + 1) ∷ rest else (l, n) ∷ add_drop label rest

-- `collector.drop`
unfoldable pub count_drop : Bytes → Collector → Collector
unfolding add_drop
count_drop label c = record c { drops = add_drop label c.drops }

-- `collector.keep`, on the attributes and the collector that it changes.
unfoldable pub keep :
    (Bytes → Bytes) → Bytes → Bytes → Bool → Attributes × Collector → Attributes × Collector
unfolding put allowed
keep lower key text scalar (into, c) =
    if not (contains_key allowed key) && not (bytes_eq key key_email)
    then (into, count_drop (drop_label lower key) c)
    else if not scalar
    then (into, count_drop drop_non_scalar c)
    else if ltb max_value_bytes (length text)
    then (into, count_drop drop_oversized c)
    else (put key text into, c)

unfoldable pub discard : (Bytes → Bytes) → Bytes → Collector → Collector
discard lower key c = count_drop (drop_label lower key) c

-- `record` of otlp.go
pub record Record : Type 0 where
  pub attrs : Attributes
  pub name : Bytes
  pub start : ℕ
  pub end : ℕ
  pub trace_id : Bytes
  pub span_id : Bytes
  pub log : Bool
