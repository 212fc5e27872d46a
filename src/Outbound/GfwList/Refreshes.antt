-- ===== src/Outbound/GfwList/Refreshes.antt =====
-- outbound/groups.go: the list and the file behind `refreshGFWList`.
use ts_dns.Common.{
  ◌≡◌, refl, ◌⊎◌, sym, ap, ◌∙◌, Bool, true, false, Option, none, some, [], ◌∷◌, Bytes, Option-cases,
  Bool-cases, inl, inr, some_inj, none_some, arith, ◌>>=◌,
}
use mathlib.Core.Path.{subst}
use ts_dns.Regexp.{RegexpLib}
use ts_dns.Matcher.AbPlus.{AbPlus, new_abp_by_text, new_abp_by_file}
use ts_dns.Outbound.GfwList.{Files, WebLib, ListState, grab_gfw_list, write_list, refresh_gfw_list}

module _ (re : RegexpLib) (web : WebLib) (write : Bytes → Bytes → Files → Files × Bool) where
  open re use {Regexp}

  -- How the files stand after a text was to be saved: as before without a name, with an error, or saved.
  abbrev pub IsSaved : Bytes → Bytes → Files → Files → Type 0
  IsSaved file encoded before after =
      ((file ≡ []) × (after ≡ before))
      ⊎ ((write file encoded before).1 ≡ false)
      ⊎ (after file ≡ some encoded)

  write_list-IsSaved :
      (file encoded : Bytes) (files : Files)
      → ((f t : Bytes) (fs : Files) → (write f t fs).1 ≡ true → (write f t fs).0 f ≡ some t)
      → IsSaved file encoded files (write_list write file encoded files)
  write_list-IsSaved [] encoded files law = inl (refl, refl)
  write_list-IsSaved (c ∷ file) encoded files law =
      elim (Bool-cases (write (c ∷ file) encoded files).1) [
        | inl ok ↦ inr (inr (law (c ∷ file) encoded files ok))
        | inr failed ↦ inr (inl failed)
      ]

  reads_back :
      (files : Files) (file text : Bytes) (m : AbPlus Regexp)
      → files file ≡ some (web.encode_base64 text)
      → new_abp_by_text re text ≡ some m
      → new_abp_by_file re files web.decode_base64 file true ≡ some (some m)
  unfolding new_abp_by_file
  reads_back files file text m saved read =
      rw (new_abp_by_file, saved, web.decode-encode text, read) refl

  -- What a refresh makes of a state.
  abbrev pub IsRefreshed : Bytes → Bytes → ListState Regexp → ListState Regexp → Type 0
  IsRefreshed url file s s' =
      (body : Bytes) × (text : Bytes) × (m : AbPlus Regexp) × (web.get url ≡ some (200, some body))
      × (web.decode_base64 body ≡ some text)
      × (new_abp_by_text re text ≡ some m)
      × (s'.gfw_list ≡ some m)
      × (((file ≡ []) × (s'.read_file ≡ s.read_file))
          ⊎ ((write file (web.encode_base64 text) s.read_file).1 ≡ false)
          ⊎ (new_abp_by_file re s'.read_file web.decode_base64 file true ≡ some (some m)))

  saved-IsRefreshed :
      (file text : Bytes) (m : AbPlus Regexp) (before after : Files)
      → new_abp_by_text re text ≡ some m
      → IsSaved file (web.encode_base64 text) before after
      → ((file ≡ []) × (after ≡ before))
        ⊎ ((write file (web.encode_base64 text) before).1 ≡ false)
        ⊎ (new_abp_by_file re after web.decode_base64 file true ≡ some (some m))
  saved-IsRefreshed file text m before after read (inl unnamed) = inl unnamed
  saved-IsRefreshed file text m before after read (inr (inl failed)) = inr (inl failed)
  saved-IsRefreshed file text m before after read (inr (inr saved)) =
      inr (inr (reads_back after file text m saved read))

  abbrev with_list : Bytes → Bytes → ListState Regexp → AbPlus Regexp → ListState Regexp
  with_list file text s m = record {
    gfw_list = some m;
    read_file = write_list write file (web.encode_base64 text) s.read_file;
  }

  refreshed :
      (url body text file : Bytes) (s s' : ListState Regexp)
      → web.get url ≡ some (200, some body)
      → web.decode_base64 body ≡ some text
      → ((f t : Bytes) (fs : Files) → (write f t fs).1 ≡ true → (write f t fs).0 f ≡ some t)
      → (new_abp_by_text re text >>= λ m. some (with_list file text s m)) ≡ some s'
      → IsRefreshed url file s s'
  refreshed url body text file s s' got decoded law h =
      elim (Option-cases (new_abp_by_text re text)) [
        | inl panics ↦
            none_some (sym (ap (λ o. o >>= λ m. some (with_list file text s m)) panics) ∙ h)
        | inr (m, read) ↦
            subst (IsRefreshed url file s)
              (some_inj (sym (ap (λ o. o >>= λ m. some (with_list file text s m)) read) ∙ h))
              (
                body,
                text,
                m,
                got,
                decoded,
                read,
                refl,
                saved-IsRefreshed file text m s.read_file _ read
                    (write_list-IsSaved file (web.encode_base64 text) s.read_file law),
              )
      ]

  -- A text was downloaded with status 200 and decoded.
  grabbed_body :
      (url text : Bytes)
      → grab_gfw_list web url ≡ some text
      → (body : Bytes) × (web.get url ≡ some (200, some body))
        × (web.decode_base64 body ≡ some text)
  unfolding grab_gfw_list
  grabbed_body [] text h = absurd (none_some h)
  grabbed_body (c ∷ url) text h = elim (Option-cases (web.get (c ∷ url))) [
    | inl off ↦ absurd (ground arith)
    | inr ((status, none), got) ↦ absurd (ground arith)
    | inr ((status, some body), got) ↦ (body, ground arith, ground arith)
  ]

  abbrev after_grab : Bytes → ListState Regexp → Option Bytes → Option (ListState Regexp)
  after_grab file s o = elim o [
    | none ↦ some s
    | some text ↦ new_abp_by_text re text >>= λ m. some (with_list file text s m)
  ]

  -- A refresh either changes nothing, because there was no text to download, or the URL gave a body with
  -- status 200, the group's list becomes the one read from the text that this body decodes to, and the list
  -- file, if it has a name and was written without error, reads at the next start as this same list. A file written without error holds what
  -- was written.
  pub refresh_gfw_list-IsRefreshed :
      (url file : Bytes) (s s' : ListState Regexp)
      → ((f t : Bytes) (fs : Files) → (write f t fs).1 ≡ true → (write f t fs).0 f ≡ some t)
      → refresh_gfw_list re web write url file s ≡ some s'
      → ((grab_gfw_list web url ≡ none) × (s' ≡ s)) ⊎ IsRefreshed url file s s'
  unfolding refresh_gfw_list
  refresh_gfw_list-IsRefreshed url file s s' law h = elim (Option-cases (grab_gfw_list web url)) [
    | inl nothing ↦ inl (nothing, sym (some_inj (sym (ap (after_grab file s) nothing) ∙ h)))
    | inr (text, grabbed) ↦
        let (body, got, decoded) = grabbed_body url text grabbed in
        inr (
          refreshed url body text file s s' got decoded law
            (sym (ap (after_grab file s) grabbed) ∙ h))
  ]
