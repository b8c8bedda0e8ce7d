-- ===== src/PrimitiveHost/RoundTrip.antt =====
-- A command line that is written for some options is read as those.
use mathlib.Core.List.{append_assoc, append-nil}
use pingling.Prelude.{
  String, List, [], ◌∷◌, ◌++◌, ◌≡◌, refl, sym, ap, ◌∙◌, true, false, Option, none, some, ok, str_eq,
  All, arith, eq_iff, Bool-cases, inl, inr,
}
use pingling.PrimitiveHost.{
  Options, default_options, Flag, core_flag, binary_flag, config_flag, start_arg_flag,
  validate_arg_flag, flag_str, flag_of, set_flag, is_command, has_dashes, next_value, parse_word,
  parse_from, parse,
}

abbrev pub each_with : Flag → List String → List String
each_with flag [] = []
each_with flag (value ∷ values) = flag_str flag ∷ value ∷ each_with flag values

abbrev pub given : Flag → Option String → List String
given flag none = []
given flag (some value) = flag_str flag ∷ value ∷ []

-- The arguments for some options.
abbrev pub render : Options → List String
render opts =
    "--core"
    ∷ opts.core
    ∷ (given binary_flag opts.binary
        ++ (given config_flag opts.config
            ++ (each_with start_arg_flag opts.start_args
                ++ (each_with validate_arg_flag opts.validate_args ++ opts.command ∷ []))))

-- A value that does not look like a flag.
abbrev pub IsPlain : String → Type 0
IsPlain value = has_dashes value ≡ false

abbrev pub IsPlainIf : Option String → Type 0
IsPlainIf none = Unit
IsPlainIf (some value) = IsPlain value

flag_of-flag_str : (flag : Flag) → flag_of (flag_str flag) ≡ some flag
unfolding flag_of flag_str
flag_of-flag_str core_flag = refl
flag_of-flag_str binary_flag = refl
flag_of-flag_str config_flag = refl
flag_of-flag_str start_arg_flag = refl
flag_of-flag_str validate_arg_flag = refl

-- A flag with its value.
parse_from-flag :
    (flag : Flag) (value : String) (rest : List String) (opts : Options)
    → IsPlain value
    → parse_from opts (flag_str flag ∷ value ∷ rest) ≡ parse_from (set_flag flag value opts) rest
unfolding parse_from next_value
parse_from-flag flag value rest opts plain = ground (arith, flag_of-flag_str flag, plain)

parse_from-given :
    (flag : Flag) (value : Option String) (rest : List String) (opts : Options)
    → IsPlainIf value
    → parse_from opts (given flag value ++ rest)
      ≡ parse_from (elim value [ none ↦ opts | some v ↦ set_flag flag v opts ]) rest
parse_from-given flag none rest opts plain = refl
parse_from-given flag (some value) rest opts plain = parse_from-flag flag value rest opts plain

parse_from-start_args :
    (values rest : List String) (opts : Options)
    → All IsPlain values
    → parse_from opts (each_with start_arg_flag values ++ rest)
      ≡ parse_from (record opts { start_args = opts.start_args ++ values }) rest
unfolding set_flag
parse_from-start_args [] rest opts plain =
    ap (λ l. parse_from (record opts { start_args = l }) rest) (sym (append-nil opts.start_args))
parse_from-start_args (v ∷ values) rest opts plain =
    parse_from-flag start_arg_flag v (each_with start_arg_flag values ++ rest) opts plain.0
    ∙ parse_from-start_args values rest (set_flag start_arg_flag v opts) plain.1
    ∙ ap (λ l. parse_from (record opts { start_args = l }) rest)
        (append_assoc opts.start_args (v ∷ []) values)

parse_from-validate_args :
    (values rest : List String) (opts : Options)
    → All IsPlain values
    → parse_from opts (each_with validate_arg_flag values ++ rest)
      ≡ parse_from (record opts { validate_args = opts.validate_args ++ values }) rest
unfolding set_flag
parse_from-validate_args [] rest opts plain =
    ap (λ l. parse_from (record opts { validate_args = l }) rest)
      (sym (append-nil opts.validate_args))
parse_from-validate_args (v ∷ values) rest opts plain =
    parse_from-flag validate_arg_flag v (each_with validate_arg_flag values ++ rest) opts plain.0
    ∙ parse_from-validate_args values rest (set_flag validate_arg_flag v opts) plain.1
    ∙ ap (λ l. parse_from (record opts { validate_args = l }) rest)
        (append_assoc opts.validate_args (v ∷ []) values)

is_command-flag_of : (arg : String) → is_command arg ≡ true → flag_of arg ≡ none
unfolding is_command flag_of
is_command-flag_of arg h = elim (Bool-cases (str_eq arg "status")) [
  | inl e ↦ rw ((eq_iff arg "status").0 e) refl
  | inr a ↦ elim (Bool-cases (str_eq arg "check")) [
    | inl e ↦ rw ((eq_iff arg "check").0 e) refl
    | inr b ↦ rw ((eq_iff arg "smoke").0 (ground (arith, h, a, b))) refl
  ]
]

parse_from-command :
    (command : String) (opts : Options)
    → is_command command ≡ true
    → parse_from opts (command ∷ []) ≡ ok (record opts { command = command })
unfolding parse_from parse_word
parse_from-command command opts h = ground (arith, h, is_command-flag_of command h)

-- The arguments that are written for options are read back as the same options, when the command is one
-- that there is, and no value begins with two dashes.
pub parse-render :
    (opts : Options)
    → is_command opts.command ≡ true
    → IsPlain opts.core
    → IsPlainIf opts.binary
    → IsPlainIf opts.config
    → All IsPlain opts.start_args
    → All IsPlain opts.validate_args
    → parse (render opts) ≡ ok opts
unfolding parse default_options set_flag flag_str
parse-render opts command core binary config starts validates =
    parse_from-flag core_flag opts.core _ default_options core
    ∙ parse_from-given binary_flag opts.binary _ _ binary
    ∙ parse_from-given config_flag opts.config _ _ config
    ∙ parse_from-start_args opts.start_args _ _ starts
    ∙ parse_from-validate_args opts.validate_args _ _ validates
    ∙ parse_from-command opts.command _ command
    ∙ ground arith
