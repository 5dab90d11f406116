-- ===== src/Policy/Config.antt =====
-- internal/policy/settings.go: costroid.yml. The YAML library is a parameter: what it makes of the
-- file's bytes is a tree of nodes, and it decodes an integer's node. A refusal is `none`: the
-- error's words are not modelled.

use costroid.Prelude.{
  ℕ, leb, Bool, true, false, ◌&&◌, ◌||◌, not, if◌then◌else◌, List, [], ◌∷◌, ◌++◌, Option, none,
  some, ◌>>=◌, Bytes, bytes_eq, any, length, codes,
}
use costroid.Prelude.Int.{ℤ}
use costroid.Decimal.{Decimal}
use costroid.Decimal.Text.{cut, is_whole, is_fraction, parse, digits_of}
use costroid.Policy.{
  Settings, AmountKey, key_run_budget, key_max_run_cost, key_max_increase, key_max_increase_percent,
  key_pull_request_budget, key_monthly_budget,
}
use costroid.Policy.Rows.{max_model_length, max_scale, is_model, cut_star}

pub data Kind : Type 0 where
  unset document sequence mapping scalar alias : Kind

-- `yaml.Node`: what `Kind`, `Tag`, `Value`, `Content` and `Alias` hold.
mutual
  pub data Node : Type 0 where
    node : Kind → Bytes → Bytes → Nodes → Target → Node

  pub data Nodes : Type 0 where
    no_nodes : Nodes
    more_nodes : Node → Nodes → Nodes

  pub data Target : Type 0 where
    nil : Target
    points_to : Node → Target

abbrev pub kind_of : Node → Kind
kind_of (node kind tag value content target) = kind

abbrev pub tag_of : Node → Bytes
tag_of (node kind tag value content target) = tag

abbrev pub value_of : Node → Bytes
value_of (node kind tag value content target) = value

abbrev pub content_of : Node → Nodes
content_of (node kind tag value content target) = content

-- The YAML library: `Unmarshal` into a node, and `Decode` into a uint64 and into an int.
pub record Yaml : Type 0 where
  pub unmarshal : Bytes → Option Node
  pub decode_uint64 : Node → Option ℕ
  pub decode_int : Node → Option ℤ

abbrev pub is_scalar : Kind → Bool
is_scalar scalar = true
is_scalar _ = false

abbrev pub is_mapping : Kind → Bool
is_mapping mapping = true
is_mapping _ = false

abbrev pub is_sequence : Kind → Bool
is_sequence sequence = true
is_sequence _ = false

-- A section's value, where an alias reads as the node that it names.
unfoldable pub resolved : Node → Target
resolved (node alias tag value content target) = target
resolved (node unset tag value content target) = points_to (node unset tag value content target)
resolved (node document tag value content target) =
    points_to (node document tag value content target)
resolved (node sequence tag value content target) =
    points_to (node sequence tag value content target)
resolved (node mapping tag value content target) = points_to (node mapping tag value content target)
resolved (node scalar tag value content target) = points_to (node scalar tag value content target)

unfoldable pub find_key : Bytes → Nodes → Target
unfolding resolved
find_key key no_nodes = nil
find_key key (more_nodes k no_nodes) = nil
find_key key (more_nodes k (more_nodes value rest)) =
    let later = find_key key rest in if bytes_eq (value_of k) key then resolved value else later

-- `section`: the value of a top-level key of a document that is a mapping.
unfoldable pub section : Node → Bytes → Target
unfolding find_key
section (node document tag value (more_nodes (node mapping t v content a) rest) target) key =
    find_key key content
section _ key = nil

abbrev pub amount_key : Bytes → Option AmountKey
amount_key name =
    if bytes_eq name (codes "run_budget_usd")
    then some key_run_budget
    else if bytes_eq name (codes "max_run_cost_usd")
    then some key_max_run_cost
    else if bytes_eq name (codes "max_increase_usd")
    then some key_max_increase
    else if bytes_eq name (codes "max_increase_percent")
    then some key_max_increase_percent
    else if bytes_eq name (codes "pr_budget_usd")
    then some key_pull_request_budget
    else if bytes_eq name (codes "monthly_budget_usd")
    then some key_monthly_budget
    else none

-- `amountPattern`: the literal of a decimal with at most 12 fractional digits.
unfoldable pub is_amount : Bytes → Bool
unfolding cut is_whole is_fraction
is_amount text =
    let (whole, fraction, found) = cut b'.' text in
    is_whole whole && (not found || is_fraction fraction && leb (length fraction) max_scale)

-- `modelEntryPattern`: a model id, or such an id's prefix followed by *.
unfoldable pub is_model_entry : Bytes → Bool
unfolding is_model cut_star
is_model_entry text = is_model (cut_star text).0

unfoldable pub parse_amount : Yaml → Node → Option Decimal
unfolding is_amount
parse_amount y value =
    let quoted =
      if not (is_scalar (kind_of value))
        || not (bytes_eq (tag_of value) (codes "!!str"))
        || not (is_amount (value_of value))
      then none
      else parse (value_of value) in
    if is_scalar (kind_of value) && bytes_eq (tag_of value) (codes "!!int")
    then elim (y.decode_uint64 value) [ some whole ↦ parse (digits_of whole) | none ↦ quoted ]
    else quoted

-- One entry of `policy.models`, which must be new.
unfoldable pub entry_refused : Node → List Bytes → Bool
unfolding is_model_entry
entry_refused entry models =
    not (is_scalar (kind_of entry))
    || not (bytes_eq (tag_of entry) (codes "!!str"))
    || not (leb (length (value_of entry)) max_model_length)
    || not (is_model_entry (value_of entry))
    || any (λ m. bytes_eq m (value_of entry)) models

unfoldable pub read_models : List Bytes → Nodes → Option (List Bytes)
unfolding entry_refused
read_models models no_nodes = some models
read_models models (more_nodes entry rest) =
    let more = read_models (models ++ value_of entry ∷ []) rest in
    if entry_refused entry models then none else more

abbrev pub is_no_nodes : Nodes → Bool
is_no_nodes no_nodes = true
is_no_nodes (more_nodes n rest) = false

unfoldable pub parse_models : Node → Option (List Bytes)
unfolding read_models
parse_models value =
    if not (is_sequence (kind_of value)) || is_no_nodes (content_of value)
    then none
    else read_models [] (content_of value)

abbrev pub same_key : AmountKey → AmountKey → Bool
same_key key_run_budget key_run_budget = true
same_key key_max_run_cost key_max_run_cost = true
same_key key_max_increase key_max_increase = true
same_key key_max_increase_percent key_max_increase_percent = true
same_key key_pull_request_budget key_pull_request_budget = true
same_key key_monthly_budget key_monthly_budget = true
same_key _ _ = false

abbrev pub no_settings : Settings
no_settings = record { amounts = λ key. none; models = []; enforce = false }

abbrev pub set_amount : Settings → AmountKey → Option Decimal → Settings
set_amount s key amount = record s { amounts = λ k. if same_key key k then amount else s.amounts k }

-- One key under `policy`, with its value.
unfoldable pub read_key : Yaml → Bytes → Node → Settings → Option Settings
unfolding parse_amount parse_models
read_key y key value s = elim (amount_key key) [
  | some k ↦ do amount ← parse_amount y value; some (set_amount s k (some amount))
  | none ↦
      if bytes_eq key (codes "models")
      then (do models ← parse_models value; some (record s { models = models }))
      else if bytes_eq key (codes "enforce")
      then (if not (is_scalar (kind_of value)) || not (bytes_eq (tag_of value) (codes "!!bool"))
          then none
          else some (record s { enforce = bytes_eq (value_of value) (codes "true") }))
      else none
]

unfoldable pub read_keys : Yaml → Nodes → Settings → Option Settings
unfolding read_key
read_keys y no_nodes s = some s
read_keys y (more_nodes key no_nodes) s = some s
read_keys y (more_nodes key (more_nodes value rest)) s = do
  next ← read_key y (value_of key) value s
  read_keys y rest next

unfoldable pub read_policy : Yaml → Target → Option Settings
unfolding read_keys
read_policy y nil = some no_settings
read_policy y (points_to mapping_node) =
    if bytes_eq (tag_of mapping_node) (codes "!!null")
    then some no_settings
    else if not (is_mapping (kind_of mapping_node))
    then none
    else read_keys y (content_of mapping_node) no_settings

unfoldable pub parse_settings : Yaml → Bytes → Option Settings
unfolding section read_policy
parse_settings y text = do root ← y.unmarshal text; read_policy y (section root (codes "policy"))
