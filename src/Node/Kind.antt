-- ===== src/Node/Kind.antt =====
-- consensus/avail/mechanism.go, and the node's type in `New` of avail.go.
use availproject_op_evm.Prelude.{
  ◌≡◌, refl, Bool, true, false, not, ◌&&◌, Option, none, some, List, [], ◌∷◌, map, if◌then◌else◌,
}
use availproject_op_evm.Prelude.Bytes.{Bytes, codes, bytes_eq}

-- `MechanismType`, a string: one of the three constants or another one.
pub data Kind : Type 0 where
  bootstrap_sequencer sequencer watch_tower : Kind
  other : Bytes → Kind

-- `String`.
unfoldable pub kind_name : Kind → Bytes
kind_name bootstrap_sequencer = codes "bootstrap-sequencer"
kind_name sequencer = codes "sequencer"
kind_name watch_tower = codes "watchtower"
kind_name (other name) = name

-- `ParseType`: a look into the map of the three.
unfoldable pub parse_type : Bytes → Option Kind
parse_type name =
    if bytes_eq name (codes "bootstrap-sequencer")
    then some bootstrap_sequencer
    else if bytes_eq name (codes "sequencer")
    then some sequencer
    else if bytes_eq name (codes "watchtower")
    then some watch_tower
    else none

abbrev pub cons_kind : Option Kind → Option (List Kind) → Option (List Kind)
cons_kind none rest = none
cons_kind (some k) none = none
cons_kind (some k) (some ks) = some (k ∷ ks)

-- `ParseMechanismConfigTypes`, of a list of strings.
unfoldable pub parse_mechanism_config_types : List Bytes → Option (List Kind)
unfolding parse_type
parse_mechanism_config_types [] = some []
parse_mechanism_config_types (name ∷ names) =
    cons_kind (parse_type name) (parse_mechanism_config_types names)

abbrev is_bootstrap : Kind → Bool
is_bootstrap bootstrap_sequencer = true
is_bootstrap k = false

abbrev is_sequencer : Kind → Bool
is_sequencer sequencer = true
is_sequencer k = false

-- The node's type in `New`: a bootstrap sequencer wants a boot node, and a sequencer on a boot node
-- is one.
unfoldable pub node_kind : Kind → Bool → Option Kind
node_kind k bootnode =
    if is_bootstrap k && not bootnode
    then none
    else if is_sequencer k && bootnode
    then some bootstrap_sequencer
    else some k

-- One of the three constants.
abbrev pub IsKnown : Kind → Type 0
IsKnown (other name) = ⊥
IsKnown k = Unit

pub AllKnown : List Kind → Type 0
AllKnown [] = Unit
AllKnown (k ∷ ks) = IsKnown k × AllKnown ks

parse_type-kind_name : (k : Kind) → IsKnown k → parse_type (kind_name k) ≡ some k
unfolding parse_type kind_name bytes_eq
parse_type-kind_name bootstrap_sequencer known = refl
parse_type-kind_name sequencer known = refl
parse_type-kind_name watch_tower known = refl
parse_type-kind_name (other name) known = absurd known

-- A configuration that names known mechanisms is read back as them.
pub parse-kind_name :
    (ks : List Kind)
    → AllKnown ks
    → parse_mechanism_config_types (map (λ k. kind_name k) ks) ≡ some ks
unfolding parse_mechanism_config_types AllKnown
parse-kind_name [] known = refl
parse-kind_name (k ∷ ks) known =
    rw (parse_type-kind_name k known.0) (rw (parse-kind_name ks known.1) refl)
