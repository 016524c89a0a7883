-- ===== src/Builder/Update.antt =====
-- What the state holds after a node's updates are merged into it.
use urizo_final_orchestrator.Base.{ℕ, Str, some, eq, eq_iff, if◌then◌else◌, ◌≡◌, refl, ◌∙◌, arith}
use urizo_final_orchestrator.Json.{Value, int, text, dict, Fields, end, field, lookup}
use urizo_final_orchestrator.Snapshot.{SnapshotNode}
use urizo_final_orchestrator.Builder.Action.{
  put_field, update, loop_counts_key, last_node_key, last_port_key, sequence_key, Validated,
  count_fields, port_value, updates_of,
}

pub lookup-put_field :
    (k j : Str) (v : Value) (fs : Fields)
    → lookup j (put_field k v fs) ≡ (if eq k j then some v else lookup j fs)
unfolding lookup put_field
lookup-put_field k j v end = refl
lookup-put_field k j v (field i w fs) =
    ground (arith, eq_iff k j, eq_iff i k, eq_iff i j, lookup-put_field k j v fs)

module _ (state : Fields) (n : SnapshotNode) (sequence : ℕ) (v : Validated) where
  abbrev pub merged : Fields
  merged = update state (updates_of n sequence v)

  pub merged-counts : lookup loop_counts_key merged ≡ some (dict (count_fields v.counts))
  unfolding update updates_of eq
  merged-counts =
      lookup-put_field sequence_key loop_counts_key _ _
      ∙ lookup-put_field last_port_key loop_counts_key _ _
      ∙ lookup-put_field last_node_key loop_counts_key _ _
      ∙ lookup-put_field loop_counts_key loop_counts_key _ _

  pub merged-node : lookup last_node_key merged ≡ some (text n.node_id)
  unfolding update updates_of eq
  merged-node =
      lookup-put_field sequence_key last_node_key _ _
      ∙ lookup-put_field last_port_key last_node_key _ _
      ∙ lookup-put_field last_node_key last_node_key _ _

  pub merged-port : lookup last_port_key merged ≡ some (port_value v.port)
  unfolding update updates_of eq
  merged-port =
      lookup-put_field sequence_key last_port_key _ _
      ∙ lookup-put_field last_port_key last_port_key _ _

  pub merged-sequence : lookup sequence_key merged ≡ some (int sequence)
  unfolding update updates_of eq
  merged-sequence = lookup-put_field sequence_key sequence_key _ _
