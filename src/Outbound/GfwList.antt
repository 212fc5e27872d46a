-- ===== src/Outbound/GfwList.antt =====
-- outbound/groups.go: `grabGFWList` and `refreshGFWList`. The HTTP client, base64 and the file system are parameters;
-- a request gives its status and its body, `none` where the reading of it fails.
use ts_dns.Common.{
  ℕ, Bool, true, false, not, Option, none, some, List, [], ◌∷◌, if◌then◌else◌, ◌==◌, ◌≡◌, Bytes,
  ◌>>=◌,
}
use ts_dns.Regexp.{RegexpLib}
use ts_dns.Matcher.AbPlus.{AbPlus, new_abp_by_text}
use ts_dns.Outbound.Hijack.{is_nil}
mod Refreshes
mod Tests

-- What the code uses of Go's `net/http` and `encoding/base64`; a text that was encoded decodes again.
pub record WebLib : Type 0 where
  pub get : Bytes → Option (ℕ × Option Bytes)
  pub decode_base64 : Bytes → Option Bytes
  pub encode_base64 : Bytes → Bytes
  pub decode-encode : (s : Bytes) → decode_base64 (encode_base64 s) ≡ some s

-- The list that a group holds, with the files as names and contents.
pub record ListState (R : Type 0) : Type 0 where
  pub gfw_list : Option (AbPlus R)
  pub read_file : Bytes → Option Bytes

-- `http.StatusOK`.
abbrev status_ok : ℕ
status_ok = 200

-- `grabGFWList`; `none` is a nil slice.
unfoldable pub grab_gfw_list : WebLib → Bytes → Option Bytes
grab_gfw_list web [] = none
grab_gfw_list web (c ∷ url) = do
  (status, body) ← web.get (c ∷ url)
  raw ← (if status == status_ok then body else none)
  web.decode_base64 raw

abbrev pub Files : Type 0
Files = Bytes → Option Bytes

-- The files after the text was saved. `write` is `os.WriteFile`, which gives the files and whether
-- there was no error; after an error a part may be written.
abbrev pub write_list : (Bytes → Bytes → Files → Files × Bool) → Bytes → Bytes → Files → Files
write_list write [] encoded files = files
write_list write (c ∷ file) encoded files = (write (c ∷ file) encoded files).0

module _ (re : RegexpLib) where
  open re use {Regexp}

  -- `refreshGFWList`; `none` is a panic of the rule matcher.
  unfoldable pub refresh_gfw_list :
      WebLib
      → (Bytes → Bytes → Files → Files × Bool)
      → Bytes
      → Bytes
      → ListState Regexp
      → Option (ListState Regexp)
  unfolding grab_gfw_list new_abp_by_text
  refresh_gfw_list web write url file s = elim (grab_gfw_list web url) [
    | none ↦ some s
    | some text ↦ do
      m ← new_abp_by_text re text
      some (record {
        gfw_list = some m;
        read_file = write_list write file (web.encode_base64 text) s.read_file;
      })
  ]
