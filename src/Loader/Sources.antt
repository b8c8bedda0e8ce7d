-- ===== src/Loader/Sources.antt =====
-- Where `load_env` takes a configuration from.
use pingling.Prelude.{
  String, ◌≡◌, subst, List, [], ◌∷◌, Result, ok, err, true, false, inl, inr, Result-cases,
  Bool-cases,
}
use pingling.Loader.{
  PinglingConfig, default_config, ConfigLoader, Host, apply_env_overrides, unwrap_or, FileFormat,
  file_format, load_file, load_env_only, load_first, load_env, search_paths,
}
use pingling.Loader.Overrides.{Overridden, apply_vars-Overridden}

abbrev refused : String → Result PinglingConfig String
refused e = err e

abbrev accepted : PinglingConfig → Result PinglingConfig String
accepted c = ok c

ok_eq : {a b : PinglingConfig} → accepted a ≡ accepted b → a ≡ b
ok_eq e = cc

err_not_ok : {e : String} {c : PinglingConfig} → refused e ≡ accepted c → ⊥
err_not_ok h = cc

-- Where the fields that no variable sets come from: the defaults, when no file is there, or the
-- first file that is.
pub data From (host : Host) : List String → PinglingConfig → Type 0 where
  defaults : From host [] default_config
  passed_over :
      (path : String) (paths : List String) (base : PinglingConfig)
      → host.exists path ≡ false
      → From host paths base
      → From host (path ∷ paths) base
  first_file :
      (path : String) (paths : List String) (form : FileFormat) (base : PinglingConfig)
      → host.exists path ≡ true
      → file_format (host.to_lowercase (unwrap_or "yaml" (host.extension path))) ≡ ok form
      → host.build default_config path form ≡ ok base
      → From host (path ∷ paths) base

-- A configuration with its origin.
pub record Loaded (self : ConfigLoader) (host : Host) (paths : List String) (cfg : PinglingConfig)
    : Type 0 where
  pub base : PinglingConfig
  pub origin : From host paths base
  pub overridden : Overridden self.env_prefix host.vars base cfg

load_file-Loaded :
    (self : ConfigLoader) (host : Host) (path : String) (paths : List String) (cfg : PinglingConfig)
    → host.exists path ≡ true
    → load_file self host path ≡ ok cfg
    → Loaded self host (path ∷ paths) cfg
unfolding load_file apply_env_overrides
load_file-Loaded self host path paths cfg there h =
    elim (Result-cases (file_format (host.to_lowercase (unwrap_or "yaml" (host.extension path))))) [
      | inr (e, bad) ↦ absurd (err_not_ok (rw (bad, load_file) at h))
      | inl (form, good) ↦ elim (Result-cases (host.build default_config path form)) [
        | inr (e, bad) ↦ absurd (err_not_ok (rw (good, load_file, bad) at h))
        | inl (base, built) ↦ record {
          base = base;
          origin = first_file path paths form base there good built;
          overridden =
              subst (Overridden self.env_prefix host.vars base)
                (ok_eq (rw (good, load_file, built) at h))
                (apply_vars-Overridden self.env_prefix host.vars base);
        }
      ]
    ]

load_first-Loaded :
    (self : ConfigLoader) (host : Host) (paths : List String) (cfg : PinglingConfig)
    → load_first self host paths ≡ ok cfg
    → Loaded self host paths cfg
unfolding load_first load_env_only apply_env_overrides
load_first-Loaded self host [] cfg h = record {
  base = default_config;
  origin = defaults;
  overridden =
      subst (Overridden self.env_prefix host.vars default_config) (ok_eq h)
        (apply_vars-Overridden self.env_prefix host.vars default_config);
}
load_first-Loaded self host (path ∷ paths) cfg h = elim (Bool-cases (host.exists path)) [
  | inl e ↦ load_file-Loaded self host path paths cfg e (rw (e, load_first) at h)
  | inr e ↦
      let l = load_first-Loaded self host paths cfg (rw (e, load_first) at h) in
      record {
        base = l.base;
        origin = passed_over path paths l.base e l.origin;
        overridden = l.overridden;
      }
]

-- When `load_env` gives a configuration, it is that of the first search path at which there is a
-- file, over the defaults, or the defaults when there is none; but each field with a variable in
-- the environment, prefix and name, has the value of that variable, and of the last where there
-- are two.
pub load_env-Loaded :
    (self : ConfigLoader) (host : Host) (cfg : PinglingConfig)
    → load_env self host ≡ ok cfg
    → Loaded self host (search_paths self host) cfg
unfolding load_env
load_env-Loaded self host cfg h = load_first-Loaded self host (search_paths self host) cfg h
