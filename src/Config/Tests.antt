-- ===== src/Config/Tests.antt =====
-- The round trip of string slices over a stand-in for the YAML library.
use ts_dns.Common.{◌≡◌, refl, none, some, List, [], ◌∷◌, Bytes, codes}
use ts_dns.Config.{other_node, YamlLib, unmarshal_yaml, marshal_yaml, encode}
use ts_dns.Config.Slices.{unmarshal_yaml-marshal_yaml}

-- Sequences that hold their strings.
abbrev strings : YamlLib (List Bytes)
strings = record { decode = λ xs. some xs; items = λ xs. xs; decode-items = λ xs. refl }

a_mapping : unmarshal_yaml strings other_node ≡ none
unfolding unmarshal_yaml
a_mapping = refl

unmarshal_yaml-marshal_yaml_example :
    unmarshal_yaml strings (encode strings (marshal_yaml (codes "1.1.1.1" ∷ codes "::1" ∷ [])))
    ≡ some (codes "1.1.1.1" ∷ codes "::1" ∷ [])
unmarshal_yaml-marshal_yaml_example =
    unmarshal_yaml-marshal_yaml strings (codes "1.1.1.1" ∷ codes "::1" ∷ [])
