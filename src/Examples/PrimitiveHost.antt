-- ===== src/Examples/PrimitiveHost.antt =====
-- Command lines of the primitive host.
use pingling.Prelude.{ℕ, [], ◌∷◌, ◌≡◌, refl, some, ok, err}
use pingling.Prelude.Text.{strip_prefix, format}
use pingling.Process.{ProcessCore, new_core}
use pingling.PrimitiveHost.{
  Options, process, build_core, process_spec, smoke, parse, parse_from, flag_of, next_value,
  is_command, has_dashes,
}
use pingling.PrimitiveHost.RoundTrip.{render, parse-render}
use pingling.PrimitiveHost.Smoke.{Smoked, smoke-Smoked}
use pingling.Examples.Process.{clockwork}

abbrev echo_options : Options
echo_options = record {
  core = "process";
  binary = some "/bin/echo";
  config = some "config.json";
  command = "smoke";
  start_args = "run" ∷ "{config}" ∷ [];
  validate_args = [];
}

parse_dashes : parse ("--start-arg" ∷ "--verbose" ∷ []) ≡ err "--start-arg requires a value"
unfolding parse parse_from flag_of next_value has_dashes strip_prefix format
parse_dashes = refl

parse-render_example : parse (render echo_options) ≡ ok echo_options
unfolding is_command has_dashes strip_prefix
parse-render_example = parse-render echo_options refl refl refl refl (refl, (refl, tt)) tt

abbrev echo_core : ProcessCore ℕ
echo_core = new_core (process_spec echo_options "/bin/echo")

smoke-Smoked_example :
    Smoked clockwork
      (process echo_core)
      "config.json"
      (smoke clockwork (process echo_core) "config.json" 4)
unfolding build_core process_spec
smoke-Smoked_example = smoke-Smoked clockwork echo_options _ "config.json" 4 refl
