-- ===== src/Loader/Overrides.antt =====
-- What the environment makes of a configuration.
use pingling.Prelude.{
  String, ◌≡◌, refl, ◌∙◌, List, [], ◌∷◌, Option, none, some, Bool, true, false, str_eq, eq_iff,
  if◌then◌else◌, inl, inr, Bool-cases,
}
use pingling.Prelude.Text.{strip_prefix}
use pingling.Loader.{PinglingConfig, parse_bool_env, apply_override, apply_vars, unwrap_or}

-- A key without its prefix is this name.
abbrev pub is_name : Option String → String → Bool
is_name none name = false
is_name (some rest) name = str_eq rest name

abbrev pub later : {A : Type 0} → Option A → Bool → A → Option A
later (some w) b v = some w
later none b v = if b then some v else none

-- Its value, the last where it is there twice.
abbrev pub last_value : String → String → List (String × String) → Option String
last_value prefix name [] = none
last_value prefix name ((key, value) ∷ vars) =
    later (last_value prefix name vars) (is_name (strip_prefix prefix key) name) value

abbrev pub read : {A B : Type 0} → (A → B) → Option A → Option B
read f none = none
read f (some a) = some (f a)

-- The fields of `cfg` are those of `base` but where a variable is set.
pub record Overridden (prefix : String) (vars : List (String × String)) (base cfg : PinglingConfig)
    : Type 0 where
  pub core_type : cfg.core_type ≡ unwrap_or base.core_type (last_value prefix "CORE_TYPE" vars)
  pub core_binary_path :
      cfg.core_binary_path
      ≡ unwrap_or base.core_binary_path (last_value prefix "CORE_BINARY_PATH" vars)
  pub core_config_path :
      cfg.core_config_path
      ≡ unwrap_or base.core_config_path (last_value prefix "CORE_CONFIG_PATH" vars)
  pub log_level : cfg.log_level ≡ unwrap_or base.log_level (last_value prefix "LOG_LEVEL" vars)
  pub listen_addr :
      cfg.listen_addr ≡ unwrap_or base.listen_addr (last_value prefix "LISTEN_ADDR" vars)
  pub pid_file : cfg.pid_file ≡ unwrap_or base.pid_file (last_value prefix "PID_FILE" vars)
  pub tray : cfg.tray ≡ unwrap_or base.tray (read parse_bool_env (last_value prefix "TRAY" vars))
  pub auto_connect :
      cfg.auto_connect
      ≡ unwrap_or base.auto_connect (read parse_bool_env (last_value prefix "AUTO_CONNECT" vars))
  pub plugins : cfg.plugins ≡ base.plugins

-- What one variable leaves in each field: `is name` tells whether it is the variable of that name.
abbrev Step : (String → Bool) → String → PinglingConfig → PinglingConfig → Type 0
Step is value cfg new =
    (new.core_type ≡ (if is "CORE_TYPE" then value else cfg.core_type))
    × (new.core_binary_path ≡ (if is "CORE_BINARY_PATH" then value else cfg.core_binary_path))
    × (new.core_config_path ≡ (if is "CORE_CONFIG_PATH" then value else cfg.core_config_path))
    × (new.log_level ≡ (if is "LOG_LEVEL" then value else cfg.log_level))
    × (new.listen_addr ≡ (if is "LISTEN_ADDR" then value else cfg.listen_addr))
    × (new.pid_file ≡ (if is "PID_FILE" then value else cfg.pid_file))
    × (new.tray ≡ (if is "TRAY" then parse_bool_env value else cfg.tray))
    × (new.auto_connect ≡ (if is "AUTO_CONNECT" then parse_bool_env value else cfg.auto_connect))
    × (new.plugins ≡ cfg.plugins)

by_name :
    (P : PinglingConfig → Type 0) (rest name : String) (x y : PinglingConfig)
    → (rest ≡ name → P x)
    → (str_eq rest name ≡ false → P y)
    → P (if str_eq rest name then x else y)
by_name P rest name x y h k = elim (Bool-cases (str_eq rest name)) [
  | inl e ↦ rw e (h ((eq_iff rest name).0 e))
  | inr e ↦ rw e (k e)
]

apply_override-Step :
    (rest value : String) (cfg : PinglingConfig)
    → Step (str_eq rest) value cfg (apply_override rest value cfg)
unfolding apply_override
apply_override-Step rest value cfg =
    let named = by_name (Step (str_eq rest) value cfg) rest in
    named "CORE_TYPE" _ _ (λ e. rw e (refl, refl, refl, refl, refl, refl, refl, refl, refl))
      λ e0.
        named "CORE_BINARY_PATH" _ _
          (λ e. rw e (refl, refl, refl, refl, refl, refl, refl, refl, refl))
          λ e1.
            named "CORE_CONFIG_PATH" _ _
              (λ e. rw e (refl, refl, refl, refl, refl, refl, refl, refl, refl))
              λ e2.
                named "LOG_LEVEL" _ _
                  (λ e. rw e (refl, refl, refl, refl, refl, refl, refl, refl, refl))
                  λ e3.
                    named "LISTEN_ADDR" _ _
                      (λ e. rw e (refl, refl, refl, refl, refl, refl, refl, refl, refl))
                      λ e4.
                        named "PID_FILE" _ _
                          (λ e. rw e (refl, refl, refl, refl, refl, refl, refl, refl, refl))
                          λ e5.
                            named "TRAY" _ _
                              (λ e. rw e (refl, refl, refl, refl, refl, refl, refl, refl, refl))
                              λ e6.
                                named "AUTO_CONNECT" _ _
                                  (λ e. rw e (refl, refl, refl, refl, refl, refl, refl, refl, refl))
                                  λ e7. (
                                    rw e0 refl,
                                    rw e1 refl,
                                    rw e2 refl,
                                    rw e3 refl,
                                    rw e4 refl,
                                    rw e5 refl,
                                    rw e6 refl,
                                    rw e7 refl,
                                    refl,
                                  )

variable-Step :
    (o : Option String) (value : String) (cfg : PinglingConfig)
    → Step (is_name o) value cfg (elim o [ none ↦ cfg | some rest ↦ apply_override rest value cfg ])
variable-Step none value cfg = (refl, refl, refl, refl, refl, refl, refl, refl, refl)
variable-Step (some rest) value cfg = apply_override-Step rest value cfg

-- A variable that comes later goes before one that came.
later_lem :
    {A : Type 0} (f : String → A) (o : Option String) (b : Bool) (value : String) (old new : A)
    → new ≡ (if b then f value else old)
    → unwrap_or new (read f o) ≡ unwrap_or old (read f (later o b value))
later_lem f (some w) b value old new h = refl
later_lem f none true value old new h = h
later_lem f none false value old new h = h

text_later :
    (o : Option String) (b : Bool) (value old new : String)
    → new ≡ (if b then value else old)
    → unwrap_or new o ≡ unwrap_or old (later o b value)
text_later (some w) b value old new h = refl
text_later none true value old new h = h
text_later none false value old new h = h

pub apply_vars-Overridden :
    (prefix : String) (vars : List (String × String)) (cfg : PinglingConfig)
    → Overridden prefix vars cfg (apply_vars prefix vars cfg)
unfolding apply_vars
apply_vars-Overridden prefix [] cfg = record {
  core_type = refl;
  core_binary_path = refl;
  core_config_path = refl;
  log_level = refl;
  listen_addr = refl;
  pid_file = refl;
  tray = refl;
  auto_connect = refl;
  plugins = refl;
}
apply_vars-Overridden prefix ((key, value) ∷ vars) cfg =
    let o = strip_prefix prefix key in
    let (s1, s2, s3, s4, s5, s6, s7, s8, s9) = variable-Step o value cfg in
    let h =
      apply_vars-Overridden prefix vars
        (elim o [ none ↦ cfg | some rest ↦ apply_override rest value cfg ]) in
    let last = λ (name : String). last_value prefix name vars in
    record {
      core_type =
          h.core_type
          ∙ text_later (last "CORE_TYPE") (is_name o "CORE_TYPE") value cfg.core_type _ s1;
      core_binary_path =
          h.core_binary_path
          ∙ text_later (last "CORE_BINARY_PATH") (is_name o "CORE_BINARY_PATH") value
              cfg.core_binary_path _ s2;
      core_config_path =
          h.core_config_path
          ∙ text_later (last "CORE_CONFIG_PATH") (is_name o "CORE_CONFIG_PATH") value
              cfg.core_config_path _ s3;
      log_level =
          h.log_level
          ∙ text_later (last "LOG_LEVEL") (is_name o "LOG_LEVEL") value cfg.log_level _ s4;
      listen_addr =
          h.listen_addr
          ∙ text_later (last "LISTEN_ADDR") (is_name o "LISTEN_ADDR") value cfg.listen_addr _ s5;
      pid_file =
          h.pid_file ∙ text_later (last "PID_FILE") (is_name o "PID_FILE") value cfg.pid_file _ s6;
      tray = h.tray ∙ later_lem parse_bool_env (last "TRAY") (is_name o "TRAY") value cfg.tray _ s7;
      auto_connect =
          h.auto_connect
          ∙ later_lem parse_bool_env (last "AUTO_CONNECT") (is_name o "AUTO_CONNECT") value
              cfg.auto_connect _ s8;
      plugins = h.plugins ∙ s9;
    }
