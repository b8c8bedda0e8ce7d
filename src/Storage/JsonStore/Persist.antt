-- ===== src/Storage/JsonStore/Persist.antt =====
-- What a write leaves in the settings file, whichever of its actions fails.
use pingling.Prelude.{
  String, ◌≡◌, refl, sym, ap, ◌∙◌, inl, inr, Option, some, Result, ok, err, Option-cases,
  Result-cases,
}
use pingling.Domain.Error.{VpnError}
use pingling.Storage.JsonStore.{
  Fs, Codec, JsonFileSettingsStorage, and_next, create_parent, write_and_rename, persist,
}

-- What is relied on of `std::fs` for a settings file at `path` and its temporary file, where
-- `content` is what a file holds: they are two files, an action changes no other file than the one
-- it is given, and a `rename` that fails leaves its target alone.
pub record FileLaws {D : Type 0} (fs : Fs D) (path tmp : String) : Type 0 where
  pub content : D → String → Option String
  pub create_dir_all_content :
      (dir : String) (d : D) → content (fs.create_dir_all dir d).1 path ≡ content d path
  pub create_other : (d : D) → content (fs.create tmp d).1 path ≡ content d path
  pub create_ok : (d e : D) → fs.create tmp d ≡ (ok tt, e) → content e tmp ≡ some ""
  pub write_all_other :
      (text : String) (d : D) → content (fs.write_all tmp text d).1 path ≡ content d path
  pub write_all_ok :
      (text : String) (d e : D)
      → content d tmp ≡ some ""
      → fs.write_all tmp text d ≡ (ok tt, e)
      → content e tmp ≡ some text
  pub sync_all_content : (q : String) (d : D) → content (fs.sync_all tmp d).1 q ≡ content d q
  pub rename_ok : (d e : D) → fs.rename tmp path d ≡ (ok tt, e) → content e path ≡ content d tmp
  pub rename_err :
      (m : String) (d : D)
      → (fs.rename tmp path d).0 ≡ err m
      → content (fs.rename tmp path d).1 path ≡ content d path

abbrev pub Laws : {D : Type 0} → Fs D → String → Type 0
Laws fs path = FileLaws fs path (fs.with_extension path "json.tmp")

module _ {D : Type 0} (fs : Fs D) (codec : Codec) (self : JsonFileSettingsStorage)
    (laws : Laws fs self.path) where
  -- A write that succeeds leaves the encoded map, and one that fails leaves what was there.
  pub data Written (before : Option String) : Result (Unit {0}) VpnError × D → Type 0 where
    stored :
        (json : String) (d : D)
        → codec.to_string_pretty self.entries ≡ ok json
        → laws.content d self.path ≡ some json
        → Written before (ok tt, d)
    kept : (e : VpnError) (d : D) → laws.content d self.path ≡ before → Written before (err e, d)

  -- The disk of a step that went well, under its other name.
  moved :
      {A : Type 0} {step : A × D} {a : A} {d : D} {q : String} {c : Option String}
      → step ≡ (a, d)
      → laws.content step.1 q ≡ c
      → laws.content d q ≡ c
  moved {q = q} r h = ap (λ s. laws.content s.1 q) (sym r) ∙ h

  and_next-Written :
      (before : Option String) (step : Result (Unit {0}) String × D) (wrap : String → VpnError)
      (next : D → Result (Unit {0}) VpnError × D)
      → ((e : String) → step.0 ≡ err e → laws.content step.1 self.path ≡ before)
      → ((d : D) → step ≡ (ok tt, d) → Written before (next d))
      → Written before (and_next step wrap next)
  unfolding and_next
  and_next-Written before (ok tt, d) wrap next h k = k d refl
  and_next-Written before (err e, d) wrap next h k = kept (wrap e) d (h e refl)

  write_and_rename-Written :
      (before : Option String) (d : D)
      → laws.content d self.path ≡ before
      → Written before (write_and_rename fs codec self d)
  unfolding write_and_rename
  write_and_rename-Written before d h =
      let h1 = laws.create_other d ∙ h in
      and_next-Written before _ _ _ (λ e r. h1)
        λ d1 r1. elim (Result-cases (codec.to_string_pretty self.entries)) [
          | inr (e, bad) ↦ rw bad (kept _ d1 (moved r1 h1))
          | inl (json, good) ↦
              let h2 = laws.write_all_other json d1 ∙ moved r1 h1 in
              rw good (
                and_next-Written before _ _ _ (λ e r. h2)
                  λ d2 r2.
                    let h3 = laws.sync_all_content self.path d2 ∙ moved r2 h2 in
                    and_next-Written before _ _ _ (λ e r. h3)
                      λ d3 r3.
                        and_next-Written before _ _ _ (λ e r. laws.rename_err e d3 r ∙ moved r3 h3)
                          λ d4 r4. stored json d4 good (
                            laws.rename_ok d3 d4 r4
                            ∙ moved r3
                                (laws.sync_all_content (fs.with_extension self.path "json.tmp") d2)
                            ∙ laws.write_all_ok json d1 d2 (laws.create_ok d d1 r1) r2))
        ]

  pub persist-Written : (d : D) → Written (laws.content d self.path) (persist fs codec self d)
  unfolding persist create_parent
  persist-Written d = elim (Option-cases (fs.parent self.path)) [
    | inl e ↦ rw (e, create_parent) (write_and_rename-Written _ d refl)
    | inr (parent, e) ↦
        rw (e, create_parent)
          (and_next-Written _ _ _ _ (λ m r. laws.create_dir_all_content parent d)
            λ d1 r. write_and_rename-Written _ d1 (moved r (laws.create_dir_all_content parent d)))
  ]
