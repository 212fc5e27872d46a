-- ===== src/Config/Slices.antt =====
-- config/config.go: writing and reading a `StringSlice`.
use ts_dns.Common.{◌≡◌, refl, some, List, [], ◌∷◌, Bytes}
use ts_dns.Config.{YamlLib, unmarshal_yaml, marshal_yaml, encode}

-- A string slice of any length, written and read again, is the same.
pub unmarshal_yaml-marshal_yaml :
    {N : Type 0} (yaml : YamlLib N) (xs : List Bytes)
    → unmarshal_yaml yaml (encode yaml (marshal_yaml xs)) ≡ some xs
unfolding unmarshal_yaml marshal_yaml
unmarshal_yaml-marshal_yaml yaml [] = yaml.decode-items []
unmarshal_yaml-marshal_yaml yaml (s ∷ []) = refl
unmarshal_yaml-marshal_yaml yaml (s ∷ t ∷ rest) = yaml.decode-items (s ∷ t ∷ rest)
