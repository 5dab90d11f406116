-- ===== src/Otlp/Dialect.antt =====
-- What one record says, by the agent that wrote it: the first half of internal/otlp/dialect.go. The record
-- `Library` holds what the code calls: `strings.ToLower` and SHA-256.
use costroid.Prelude.{
  ℕ, ◌^◌, leb, ◌==◌, Bool, false, ◌&&◌, ◌||◌, not, if◌then◌else◌, [], ◌∷◌, ◌++◌, Option, none, some,
  Bytes, bytes_eq, codes, has_prefix,
}
use costroid.Decimal.Text.{digits_of}
use costroid.Focus.{CostBasis, measured, list_equivalent}
use costroid.Otlp.Fields.{text_of, contains, Record}
use costroid.Otlp.Protobuf.{hex}
use costroid.Otlp.Counts.{
  Dialect, standard, claude_code, codex, copilot, cursor, open_code, Usage, provider_anthropic,
  provider_openai, Reading, absent, unreadable, found, has_key, read_claude, read_cursor,
  read_standard, apply_counts,
}

pub record Library : Type 0 where
  pub lower : Bytes → Bytes
  pub sha256 : Bytes → Bytes

abbrev text : Record → Bytes → Bytes
text r key = text_of r.attrs (key ∷ [])

unfoldable pub dialect_of : Library → Record → Dialect
unfolding has_key contains
dialect_of lib r =
    let service = lib.lower (text r (codes "service.name")) in
    if bytes_eq r.name (codes "claude_code.api_request")
      || bytes_eq (text r (codes "event.name")) (codes "api_request")
      || bytes_eq service (codes "claude-code")
    then claude_code
    else if bytes_eq r.name (codes "cursor.api.request")
        || has_prefix service (codes "cursor")
        || has_key r.attrs (codes "cursor.api.request.input_tokens")
    then cursor
    else if has_key r.attrs (codes "codex.usage.reasoning_output_tokens")
        || has_prefix service (codes "codex")
    then codex
    else if contains service (codes "copilot")
    then copilot
    else if has_prefix service (codes "opencode")
    then open_code
    else standard

unfoldable pub claude_request_event : Record → Bool
claude_request_event r =
    r.log
    && (bytes_eq r.name (codes "claude_code.api_request")
        || bytes_eq r.name (codes "api_request")
        || bytes_eq (text r (codes "event.name")) (codes "api_request"))

unfoldable pub read_counts : Dialect → Record → Reading
unfolding claude_request_event read_claude read_cursor read_standard
read_counts claude_code r = if claude_request_event r then read_claude r.attrs else absent
read_counts cursor r = read_cursor r.attrs
read_counts codex r = if r.log then absent else read_standard r.attrs
read_counts copilot r = read_standard r.attrs
read_counts open_code r = read_standard r.attrs
read_counts standard r = read_standard r.attrs

unfoldable pub instant : ℕ → Option ℕ
instant nanos = if nanos == 0 || leb (2 ^ 63) nanos then none else some nanos

abbrev or_unknown : Bytes → Bytes
or_unknown [] = codes "unknown"
or_unknown (c ∷ s) = c ∷ s

unfoldable pub cost_basis_of : Record → CostBasis
cost_basis_of r =
    if bytes_eq (text r (codes "costroid.cost_basis")) (codes "measured")
    then measured
    else list_equivalent

-- `nameRepair.ReplaceAllString(name, "-")`, where `inside` says that the last byte was replaced too.
unfoldable pub repair : Bool → Bytes → Bytes
repair inside [] = []
repair inside (c ∷ s) =
    let fits = leb b'a' c && leb c b'z' || leb b'0' c && leb c b'9' in
    let rest = repair (not fits) s in
    if fits then c ∷ rest else if inside then rest else b'-' ∷ rest

-- `strings.Trim(name, "-")`, from its two ends.
unfoldable pub trim_left : Bytes → Bytes
trim_left [] = []
trim_left (c ∷ s) = let rest = trim_left s in if c == b'-' then rest else c ∷ s

unfoldable pub trim_right : Bytes → Bytes
trim_right [] = []
trim_right (c ∷ s) = elim (trim_right s) [
  | [] ↦ if c == b'-' then [] else c ∷ []
  | d ∷ t ↦ c ∷ d ∷ t
]

abbrev dialect_name : Dialect → Bytes
dialect_name standard = codes "genai"
dialect_name claude_code = codes "claude-code"
dialect_name codex = codes "codex"
dialect_name copilot = codes "copilot"
dialect_name cursor = codes "cursor"
dialect_name open_code = codes "opencode"

unfoldable pub agent_of : Library → Dialect → Record → Bytes
unfolding repair trim_left trim_right
agent_of lib standard r = or_unknown (
    trim_right (
      trim_left (
        repair false
          (lib.lower (text_of r.attrs (codes "gen_ai.agent.name" ∷ codes "service.name" ∷ []))))))
agent_of lib dialect r = dialect_name dialect

abbrev named_provider : Library → Record → Bytes
named_provider lib r =
    lib.lower (text_of r.attrs (codes "gen_ai.provider.name" ∷ codes "gen_ai.system" ∷ []))

-- The provider of a record that is neither Claude Code's nor Codex's.
abbrev provider_by_name : Bytes → Bytes → Bytes
provider_by_name name model =
    if bytes_eq name provider_anthropic
    then provider_anthropic
    else if bytes_eq name provider_openai
    then provider_openai
    else if has_prefix model (codes "claude")
    then provider_anthropic
    else if has_prefix model (codes "gpt-")
        || has_prefix model (codes "chatgpt")
        || has_prefix model (codes "codex")
    then provider_openai
    else []

unfoldable pub provider_of : Library → Dialect → Record → Bytes → Bytes
provider_of lib claude_code r model = provider_anthropic
provider_of lib codex r model = provider_openai
provider_of lib dialect r model = provider_by_name (named_provider lib r) model

abbrev session_of : Record → Bytes
session_of r =
    text_of r.attrs
      (codes "gen_ai.conversation.id" ∷ codes "session.id" ∷ codes "cursor.conversation.id" ∷ [])

-- The parts that `requestID` hashes, each with a zero byte behind it.
abbrev hashed_parts : Record → Bytes
hashed_parts r =
    digits_of r.start
    ++ (0 ∷ [])
    ++ (r.name ++ (0 ∷ []))
    ++ (session_of r ++ (0 ∷ []))
    ++ (text_of r.attrs
          (codes "model" ∷ codes "gen_ai.response.model" ∷ codes "gen_ai.request.model" ∷ [])
        ++ (0 ∷ []))
    ++ (text_of r.attrs (
          codes "input_tokens"
          ∷ codes "cursor.api.request.input_tokens"
          ∷ codes "gen_ai.usage.input_tokens"
          ∷ [])
        ++ (0 ∷ []))
    ++ (text_of r.attrs (
          codes "output_tokens"
          ∷ codes "cursor.api.request.output_tokens"
          ∷ codes "gen_ai.usage.output_tokens"
          ∷ [])
        ++ (0 ∷ []))

unfoldable pub request_id : Library → Record → Bytes
unfolding hex
request_id lib r = elim (text_of r.attrs (codes "request_id" ∷ codes "gen_ai.response.id" ∷ [])) [
  | c ∷ s ↦ c ∷ s
  | [] ↦
      if bytes_eq r.span_id []
      then codes "record:" ++ hex (lib.sha256 (hashed_parts r))
      else codes "span:" ++ (r.trace_id ++ (b':' ∷ r.span_id))
]

unfoldable pub usage_shell : Library → Dialect → Record → Usage
unfolding provider_of agent_of cost_basis_of instant request_id
usage_shell lib dialect r =
    let model = or_unknown (
      text_of r.attrs
        (codes "gen_ai.response.model" ∷ codes "gen_ai.request.model" ∷ codes "model" ∷ [])) in
    record {
      id = request_id lib r;
      dialect = dialect;
      provider = provider_of lib dialect r model;
      model = model;
      service_tier =
          if bytes_eq (text r (codes "speed")) (codes "fast")
          then codes "fast"
          else codes "standard";
      context_input_tokens = 0;
      start = instant r.start;
      end = instant r.end;
      counts = [];
      assumed_write = none;
      notes = [];
      session = session_of r;
      agent = agent_of lib dialect r;
      agent_version =
          text_of r.attrs
            (codes "gen_ai.agent.version" ∷ codes "service.version" ∷ codes "app.version" ∷ []);
      cost_basis = cost_basis_of r;
      enforcement_grade = text r (codes "costroid.enforcement_grade");
      repo = text r (codes "vcs.repository.url.full");
      pull_request = text r (codes "vcs.change.id");
      commit_sha = text r (codes "vcs.ref.head.revision");
      run_id = text r (codes "cicd.pipeline.run.id");
      email = text r (codes "user.email");
    }

pub data Interpreted : Type 0 where
  ignored rejected : Interpreted
  used : Usage → Interpreted

unfoldable pub interpret_found : Usage → Option Usage → Interpreted
interpret_found shell none = rejected
interpret_found shell (some u) = if bytes_eq shell.provider [] then rejected else used u

unfoldable pub interpret_reading : Usage → Reading → Interpreted
unfolding apply_counts interpret_found
interpret_reading shell absent = ignored
interpret_reading shell unreadable = rejected
interpret_reading shell (found c) = interpret_found shell (apply_counts c shell)

unfoldable pub interpret : Library → Record → Interpreted
unfolding dialect_of read_counts usage_shell interpret_reading
interpret lib r =
    interpret_reading (usage_shell lib (dialect_of lib r) r) (read_counts (dialect_of lib r) r)
