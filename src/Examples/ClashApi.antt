-- ===== src/Examples/ClashApi.antt =====
-- A controller with two selectors, and a stream with control messages.
use pingling.Prelude.{
  String, List, [], ◌∷◌, ◌≡◌, refl, Option, none, some, Result, ok, err, map, str_eq, arith,
  if◌then◌else◌,
}
use pingling.Prelude.Int.{parse_u16, parse_nat, parse_digits}
use pingling.Prelude.Text.{
  trim, trim_start, trim_end, chars_all, contains_char, trim_is_empty, first_line, second_word,
  strip_prefix, strip_suffix, split_once_text, up_to_newline, up_to_space, from_space,
}
use pingling.Prelude.BTreeMap.{BTreeMap}
use pingling.ClashApi.{
  Outside, ClashApiClient, http_status, new_client, get_proxy_selectors, http_request,
  read_response, head_status,
}
use pingling.ClashApi.Controller.{new_client-join}
use pingling.ClashApi.Selectors.{Listed, get_proxy_selectors-Listed}
use pingling.ClashApi.Stream.{
  Message, text, ping, pong, Socket, recv, stop, pinged, ponged, texted, recv-Ends,
}

new_client-join_example :
    new_client "[::1]:9090" ≡ ok (record { host = "[::1]"; port = 9090; timeout = 2_000_000_000 })
unfolding contains_char trim trim_start trim_end chars_all parse_u16 parse_nat parse_digits
    strip_prefix
new_client-join_example = new_client-join "[::1]" "9090" refl refl

-- A text, a list of texts, or a proxy with its kind and choice.
data Value : Type 0 where
  word : String → Value
  words : List String → Value
  proxy : String → String → Value

abbrev proxy_field : String → String → String → Option Value
proxy_field kind now name =
    if str_eq name "type"
    then some (word kind)
    else if str_eq name "now"
    then some (word now)
    else if str_eq name "all"
    then some (words (now ∷ "direct" ∷ []))
    else none

abbrev three_proxies : BTreeMap Value
three_proxies =
    ("auto", proxy "URLTest" "a")
    ∷ ("main", proxy "Selector" "b")
    ∷ ("video", proxy "selector" "c")
    ∷ []

abbrev controller : Outside (Unit {0}) Value
controller = record {
  exchange = λ client request w. (ok "HTTP/1.1 200 OK\r\nServer: x\r\n\r\n{}", w);
  len_text = λ s. "0";
  u16_text = λ n. "9090";
  encode_path = λ s. s;
  parse_url = λ s. ok s;
  null = word "";
  from_str = λ s. ok (word s);
  name_json = λ s. s;
  proxies = λ v. ok three_proxies;
  proxy_now = λ v. ok none;
  connections = λ v. err "none";
  version = λ v. ok (record { version = "1" });
  field = λ v. elim v [ proxy kind now ↦ some (proxy_field kind now) | _ ↦ none ];
  as_str = λ v. elim v [ word s ↦ some s | _ ↦ none ];
  as_array = λ v. elim v [ words ss ↦ some (map word ss) | _ ↦ none ];
}

abbrev local_client : ClashApiClient
local_client = record { host = "127.0.0.1"; port = 9090; timeout = 0 }

read_response_missing :
    read_response controller "HTTP/1.1 404 Not Found\r\n\r\nno" ≡ err (http_status 404 "no")
unfolding read_response head_status split_once_text strip_prefix first_line up_to_newline
    strip_suffix second_word up_to_space from_space trim_start parse_u16 parse_nat parse_digits
read_response_missing = refl

get_proxy_selectors-Listed_example :
    Listed controller three_proxies (get_proxy_selectors controller local_client tt).0
unfolding http_request read_response head_status split_once_text strip_prefix first_line
    up_to_newline strip_suffix second_word up_to_space from_space trim_start parse_u16 parse_nat
    parse_digits trim_is_empty chars_all
get_proxy_selectors-Listed_example =
    get_proxy_selectors-Listed controller local_client tt (word "{}") three_proxies refl refl
      ((refl, (refl, tt)), ((refl, tt), (tt, tt)))

-- The messages that are still to come, and the pongs that were sent.
abbrev Wire : Type 0
Wire = List Message × List String

abbrev pop : List Message → List String → Result Message String × Wire
pop [] sent = (err "closed", ([], sent))
pop (m ∷ ms) sent = (ok m, (ms, sent))

abbrev wire : Socket Wire String
wire = record {
  read = λ s. pop s.0 s.1;
  send_pong = λ payload s. (ok tt, (s.0, payload ∷ s.1));
  from_str = λ s. ok s;
  from_slice = λ s. err s;
}

recv-Ends_example :
    recv wire 3 (ping "p" ∷ pong "q" ∷ text "{}" ∷ [], []) ≡ some (ok "{}", ([], "p" ∷ []))
recv-Ends_example =
    recv-Ends wire 3 (omega arith) (pinged "p" refl refl (ponged "q" refl stop)) (texted "{}" refl)
