-- ===== src/Policy/Approval.antt =====
-- internal/policy/settings.go: the approval settings of costroid.yml. A refusal is `none`.
use costroid.Prelude.{
  ℕ, ltb, Bool, false, ◌||◌, not, if◌then◌else◌, Option, none, some, ◌>>=◌, Bytes, bytes_eq, codes,
}
use costroid.Prelude.Int.{ℤ, pos, negsuc}
use costroid.Policy.Config.{
  Node, Nodes, Target, Yaml, nil, points_to, no_nodes, more_nodes, kind_of, tag_of, value_of,
  content_of, is_scalar, is_mapping, section,
}

-- The settings of who can approve.
pub record ApprovalSettings : Type 0 where
  pub allow_author : Bool
  pub expires_days : ℕ

abbrev pub default_approval_days : ℕ
default_approval_days = 7

abbrev pub max_approval_days : ℕ
max_approval_days = 90

abbrev pub default_approval : ApprovalSettings
default_approval = record { allow_author = false; expires_days = default_approval_days }

unfoldable pub read_days : Option ℤ → Option ℕ
read_days none = none
read_days (some (negsuc n)) = none
read_days (some (pos n)) = if ltb n 1 || ltb max_approval_days n then none else some n

unfoldable pub read_approval_key : Yaml → Bytes → Node → ApprovalSettings → Option ApprovalSettings
unfolding read_days
read_approval_key y key value s =
    if bytes_eq key (codes "allow_author")
    then (if not (is_scalar (kind_of value)) || not (bytes_eq (tag_of value) (codes "!!bool"))
        then none
        else some (record s { allow_author = bytes_eq (value_of value) (codes "true") }))
    else if bytes_eq key (codes "expires_days")
    then (if not (is_scalar (kind_of value)) || not (bytes_eq (tag_of value) (codes "!!int"))
        then none
        else (do days ← read_days (y.decode_int value); some (record s { expires_days = days })))
    else none

unfoldable pub read_approval_keys : Yaml → Nodes → ApprovalSettings → Option ApprovalSettings
unfolding read_approval_key
read_approval_keys y no_nodes s = some s
read_approval_keys y (more_nodes key no_nodes) s = some s
read_approval_keys y (more_nodes key (more_nodes value rest)) s = do
  next ← read_approval_key y (value_of key) value s
  read_approval_keys y rest next

unfoldable pub read_approval : Yaml → Target → Option ApprovalSettings
unfolding read_approval_keys
read_approval y nil = some default_approval
read_approval y (points_to mapping_node) =
    if bytes_eq (tag_of mapping_node) (codes "!!null")
    then some default_approval
    else if not (is_mapping (kind_of mapping_node))
    then none
    else read_approval_keys y (content_of mapping_node) default_approval

unfoldable pub parse_approval : Yaml → Bytes → Option ApprovalSettings
unfolding section read_approval
parse_approval y text = do
  root ← y.unmarshal text
  read_approval y (section root (codes "approval"))
