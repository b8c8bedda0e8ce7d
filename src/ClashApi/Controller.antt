-- ===== src/ClashApi/Controller.antt =====
-- How the address of a controller is read.
use Prim.Native.String as String
use text.Mathlib.TextLemmas.{nil-append, cons-append}
use pingling.Prelude.{
  ℕ, String, ◌≡◌, refl, ap, ◌∙◌, false, none, some, Result, ok, err, arith, Option-cases, inl, inr,
}
use pingling.Prelude.Int.{parse_u16}
use pingling.Prelude.Text.{trim, rsplit_once, contains_char}
use pingling.ClashApi.{
  ClashApiError, invalid_controller, ClashApiClient, new_client, parse_controller,
}

rsplit_once-none :
    (d : ℕ) (text : String) → contains_char d text ≡ false → rsplit_once d text ≡ none
unfolding rsplit_once contains_char
rsplit_once-none d String.[] h = refl
rsplit_once-none d (String.◌∷◌ c s) h = ground (arith, h, rsplit_once-none d s)

colon-split :
    (text : String)
    → contains_char b':' text ≡ false
    → rsplit_once b':' (String.◌++◌ ":" text) ≡ some ("", text)
unfolding rsplit_once
colon-split text clean =
    let q : String.◌++◌ ":" text ≡ String.◌∷◌ ":" text =
      cons-append ":" "" text ∙ ap (λ t. String.◌∷◌ ":" t) (nil-append text) in
    rw q (ground (arith, rsplit_once-none b':' text clean))

rsplit_once-join :
    (host text : String)
    → contains_char b':' text ≡ false
    → rsplit_once b':' (String.◌++◌ host (String.◌++◌ ":" text)) ≡ some (host, text)
unfolding rsplit_once
rsplit_once-join String.[] text clean =
    rw (nil-append (String.◌++◌ ":" text)) (colon-split text clean)
rsplit_once-join (String.◌∷◌ c s) text clean =
    rw (cons-append c s (String.◌++◌ ":" text)) (ground (arith, rsplit_once-join s text clean))

-- What is made of a host and the text of a port, or the error that gives back the whole.
abbrev pub client_of : String → String → Result ClashApiClient ClashApiError
client_of host text = elim (parse_u16 text) [
  | none ↦ err (invalid_controller (String.◌++◌ host (String.◌++◌ ":" text)))
  | some port ↦ ok (record { host = host; port = port; timeout = 2_000_000_000 })
]

-- A controller is a host and a port with a colon between them, where the port is the part after the last
-- colon, so that the host may have colons itself: a client of that host and port is made when the port
-- is a number below 65536, and otherwise the whole address is refused. This asks that the address has
-- no white space at its ends.
pub new_client-join :
    (host text : String)
    → contains_char b':' text ≡ false
    → trim (String.◌++◌ host (String.◌++◌ ":" text)) ≡ String.◌++◌ host (String.◌++◌ ":" text)
    → new_client (String.◌++◌ host (String.◌++◌ ":" text)) ≡ client_of host text
unfolding new_client parse_controller
new_client-join host text clean whole = elim (Option-cases (parse_u16 text)) [
  | inl e ↦ ground (arith, e, whole, rsplit_once-join host text clean)
  | inr (port, e) ↦ ground (arith, e, whole, rsplit_once-join host text clean)
]
