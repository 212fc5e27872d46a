-- ===== src/Outbound/GfwList/Tests.antt =====
-- The theorem about refreshing at a concrete download.
use ts_dns.Common.{
  ◌≡◌, refl, ◌⊎◌, Bool, true, none, some, Bytes, codes, eq_bytes, eq_bytes_self, if◌then◌else◌,
}
use ts_dns.Matcher.AbPlus.{new_abp_by_text}
use ts_dns.Outbound.GfwList.{Files, WebLib, ListState, grab_gfw_list, refresh_gfw_list}
use ts_dns.Outbound.GfwList.Refreshes.{IsRefreshed, refresh_gfw_list-IsRefreshed}
use ts_dns.Samples.{sample_regexp}

-- An encoding that is the identity, and a server with one rule.
abbrev web : WebLib
web = record {
  get = λ url. some (200, some (codes "||x.cn"));
  decode_base64 = λ s. some s;
  encode_base64 = λ s. s;
  decode-encode = λ s. refl;
}

abbrev write : Bytes → Bytes → Files → Files × Bool
unfolding eq_bytes
write f t fs = ((λ g. if eq_bytes g f then some t else fs g), true)

write_law : (f t : Bytes) (fs : Files) → (write f t fs).1 ≡ true → (write f t fs).0 f ≡ some t
unfolding write
write_law f t fs h = rw (eq_bytes_self f) refl

abbrev before : ListState Bytes
before = record { gfw_list = none; read_file = λ f. none }

abbrev state_after :
    (s : ListState Bytes) × (refresh_gfw_list sample_regexp web write
        (codes "http://x.cn")
        (codes "gfw.txt")
        before
      ≡ some s)
unfolding refresh_gfw_list new_abp_by_text
state_after = (_, refl)

refresh_gfw_list-IsRefreshed_example :
    ((grab_gfw_list web (codes "http://x.cn") ≡ none) × (state_after.0 ≡ before))
    ⊎ IsRefreshed sample_regexp web write
        (codes "http://x.cn")
        (codes "gfw.txt")
        before
        state_after.0
refresh_gfw_list-IsRefreshed_example =
    refresh_gfw_list-IsRefreshed sample_regexp web write (codes "http://x.cn") (codes "gfw.txt")
      before state_after.0 write_law state_after.1
