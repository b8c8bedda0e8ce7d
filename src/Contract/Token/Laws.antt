-- ===== src/Contract/Token/Laws.antt =====
-- A token is valid or not whatever it is called in the message.
use pingling.Prelude.{String, ◌≡◌, ok, arith, none}
use pingling.Prelude.Text.{strip_suffix}
use pingling.Contract.Token.{validate_token, validate_method_pattern}

pub validate_token_any_kind :
    (kind kind' value : String)
    → validate_token kind value ≡ ok tt
    → validate_token kind' value ≡ ok tt
unfolding validate_token
validate_token_any_kind kind kind' value h = ground arith

pub exact_pattern-token :
    (name : String)
    → strip_suffix ".*" name ≡ none
    → validate_method_pattern name ≡ ok tt
    → validate_token "method" name ≡ ok tt
unfolding validate_method_pattern
exact_pattern-token name e h = ground (arith, e)
