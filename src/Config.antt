-- ===== src/Config.antt =====
-- config/config.go: `StringSlice`, read from a YAML node and written as one. What `Decode` makes of a sequence and what
-- the encoder makes of a value are the library's.
use ts_dns.Common.{ℕ, ◌≡◌, Option, none, some, List, [], ◌∷◌, Bytes}
mod Slices
mod Tests

-- A `yaml.Node` by its kind, over the type of what a sequence holds.
pub data Node (N : Type 0) : Type 0 where
  scalar : Bytes → Node N
  sequence : N → Node N
  other_node : Node N

-- What `MarshalYAML` returns: a string, or a slice of strings.
pub data Value : Type 0 where
  text : Bytes → Value
  slice : List Bytes → Value

-- gopkg.in/yaml.v3: `decode` reads a sequence of strings; what the encoder writes for a string is
-- a scalar with it, and for a slice of strings a sequence that `decode` reads as this slice.
pub record YamlLib (N : Type 0) : Type 0 where
  pub decode : N → Option (List Bytes)
  pub items : List Bytes → N
  pub decode-items : (xs : List Bytes) → decode (items xs) ≡ some xs

-- `UnmarshalYAML`; `none` is an error.
unfoldable pub unmarshal_yaml : {N : Type 0} → YamlLib N → Node N → Option (List Bytes)
unmarshal_yaml yaml (scalar s) = some (s ∷ [])
unmarshal_yaml yaml (sequence nodes) = yaml.decode nodes
unmarshal_yaml yaml other_node = none

-- `MarshalYAML`.
unfoldable pub marshal_yaml : List Bytes → Value
marshal_yaml [] = slice []
marshal_yaml (s ∷ []) = text s
marshal_yaml (s ∷ t ∷ rest) = slice (s ∷ t ∷ rest)

-- The node of a value.
abbrev pub encode : {N : Type 0} → YamlLib N → Value → Node N
encode yaml (text s) = scalar s
encode yaml (slice xs) = sequence (yaml.items xs)
