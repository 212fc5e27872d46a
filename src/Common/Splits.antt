-- ===== src/Common/Splits.antt =====
-- `strings.Split` of a text with separators, and of one without.
use Prim.Native.Nat.{ℕ}
use mathlib.Core.Path.{◌≡◌, refl}
use mathlib.Core.Bool.{false}
use mathlib.Core.List.{[], ◌∷◌, ◌++◌}
use native.Mathlib.Omega.{arith}
use ts_dns.Common.Tests.{◌==◌}
use ts_dns.Common.Lists.{any}
use ts_dns.Common.Text.{Bytes, split}
use ts_dns.Common.TextLaws.{split-cons}

pub split-append : (sep : ℕ) (s t : Bytes) → split sep (s ++ sep ∷ t) ≡ split sep s ++ split sep t
unfolding split
split-append sep [] t = ground arith
split-append sep (c ∷ s) t =
    let (p, ps, e) = split-cons sep s in ground (arith, split-append sep s t, e)

pub split-whole : (sep : ℕ) (t : Bytes) → any (λ c. c == sep) t ≡ false → split sep t ≡ t ∷ []
unfolding split
split-whole sep [] h = refl
split-whole sep (c ∷ t) h = ground (arith, split-whole sep t)
