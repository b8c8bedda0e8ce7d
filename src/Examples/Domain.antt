-- ===== src/Examples/Domain.antt =====
-- The hook pipeline on numbers: hooks that add, refuse and double.
use pingling.Prelude.{ℕ, ◌+◌, ◌*◌, String, ◌≡◌, refl, List, [], ◌∷◌, ok, err}
use pingling.Domain.Error.{cancelled}
use pingling.Domain.Pipeline.{
  Handler, Hook, WrapHook, Pipeline, run_on_error, run_before, run_after, run_handler,
  after_handler, hook_runner, wrap_cursor, execute,
}
use pingling.Domain.Pipeline.Calls.{
  HookCall, before_call, error_call, Noted, noting, noting_handler,
}
use pingling.Domain.Pipeline.Course.{Course, hook_runner-Course}

abbrev double : Handler ℕ ℕ ℕ
double input world = (ok (input * 2), world + 1)

abbrev adding : String → Hook ℕ ℕ ℕ
adding name = record {
  name = name;
  before = λ input world. (ok tt, input + 1, world);
  after = λ input output world. (ok tt, output + 10, world);
  on_error = λ input e world. world + 100;
}

abbrev refusing : Hook ℕ ℕ ℕ
refusing = record {
  name = "refusing";
  before = λ input world. (err cancelled, input, world);
  after = λ input output world. (ok tt, output, world);
  on_error = λ input e world. world + 100;
}

abbrev tripling : WrapHook ℕ ℕ ℕ
tripling = record {
  name = "tripling";
  handle = λ input next world. elim (next input world).0 [
    | ok o ↦ (ok (o * 3), (next input world).1)
    | err e ↦ (err e, (next input world).1)
  ];
}

abbrev add_two : List (Hook ℕ ℕ ℕ)
add_two = adding "a" ∷ adding "b" ∷ []

abbrev adds_twice : Pipeline ℕ ℕ ℕ
adds_twice = record { handler = double; hooks = add_two; wraps = tripling ∷ [] }

-- ((3 + 2) * 2 + 20) * 3
adds_twice_run : execute adds_twice 3 0 ≡ (ok 90, 1)
unfolding execute wrap_cursor hook_runner run_before run_handler after_handler run_after
adds_twice_run = refl

abbrev refuses_second : List (Hook ℕ ℕ ℕ)
refuses_second = adding "a" ∷ refusing ∷ adding "b" ∷ []

abbrev refused_calls : List HookCall
refused_calls =
    before_call "a"
    ∷ before_call "refusing"
    ∷ error_call "a"
    ∷ error_call "refusing"
    ∷ error_call "b"
    ∷ []

refuses_second_run :
    hook_runner (noting_handler double) (noting refuses_second) 3 (0, [])
    ≡ (err cancelled, (300, refused_calls))
unfolding hook_runner run_before run_handler run_on_error
refuses_second_run = refl

hook_runner-Course_example :
    (calls : List HookCall) × Noted
      (hook_runner (noting_handler double) (noting refuses_second) 3 (0, []))
      (hook_runner double refuses_second 3 0)
      []
      calls
    × Course refuses_second (hook_runner double refuses_second 3 0).0 calls
hook_runner-Course_example = hook_runner-Course double refuses_second 3 0
