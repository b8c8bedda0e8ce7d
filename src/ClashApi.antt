-- ===== src/ClashApi.antt =====
-- The client of crates/shared/clash-api/src/lib.rs.
--
-- The network, serde_json, `url` and `percent_encoding` are the parameter `Outside`, over a state `W` of
-- the server: a request goes out and a text comes back, or an I/O error. A websocket is the list of what
-- its reads give. Times are in nanoseconds.
pub mod Stream
pub mod Controller
pub mod Selectors
use pingling.Prelude.{
  ℕ, ◌*◌, String, List, [], ◌∷◌, ◌++◌, Bool, true, false, not, ◌||◌, ◌&&◌, leb, ltb, Option, none,
  some, Result, ok, err, ◌>>=◌, map_err, if◌then◌else◌,
}
use pingling.Prelude.Int.{parse_u16}
use pingling.Prelude.Text.{
  format, is_empty, trim, trim_is_empty, rsplit_once, split_once_text, first_line, second_word,
  eq_ignore_ascii_case,
}
use pingling.Prelude.BTreeMap.{BTreeMap}

-- The errors of the libraries are their texts.
pub data ClashApiError : Type 0 where
  invalid_controller io json web_socket : String → ClashApiError
  http_status : ℕ → String → ClashApiError
  protocol : String → ClashApiError

unfoldable pub error_str : (ℕ → String) → ClashApiError → String
error_str u16_text (invalid_controller value) = format ("invalid clash controller: " ∷ value ∷ [])
error_str u16_text (io error) = error
error_str u16_text (json error) = error
error_str u16_text (web_socket error) = error
error_str u16_text (http_status status body) = format ("http " ∷ u16_text status ∷ ": " ∷ body ∷ [])
error_str u16_text (protocol message) = message

pub record ClashApiClient : Type 0 where
  pub host : String
  pub port : ℕ
  pub timeout : ℕ

pub record ProxySelector : Type 0 where
  pub name : String
  pub kind : String
  pub now : Option String
  pub all : List String

pub record TrafficSnapshot : Type 0 where
  pub up : ℕ
  pub down : ℕ

pub record ConnectionMetadata (V : Type 0) : Type 0 where
  pub network : Option String
  pub source_ip : Option String
  pub destination_ip : Option String
  pub extra : BTreeMap V

pub record ConnectionRecord (V : Type 0) : Type 0 where
  pub id : String
  pub download : ℕ
  pub upload : ℕ
  pub metadata : Option (ConnectionMetadata V)
  pub chains : List String
  pub rule : Option String

pub record ConnectionsSnapshot (V : Type 0) : Type 0 where
  pub connections : List (ConnectionRecord V)
  pub download_total : ℕ
  pub upload_total : ℕ
  pub memory : ℕ

pub record VersionInfo : Type 0 where
  pub version : String

-- `exchange` connects, sends a request and reads the response to its end.
pub record Outside (W V : Type 0) : Type 0 where
  pub exchange : ClashApiClient → String → W → Result String String × W
  pub len_text : String → String
  pub u16_text : ℕ → String
  pub encode_path : String → String
  pub parse_url : String → Result String String
  pub null : V
  pub from_str : String → Result V String
  pub name_json : String → String
  pub proxies : V → Result (BTreeMap V) String
  pub proxy_now : V → Result (Option String) String
  pub connections : V → Result (ConnectionsSnapshot V) String
  pub version : V → Result VersionInfo String
  pub field : V → Option (String → Option V)
  pub as_str : V → Option String
  pub as_array : V → Option (List V)

unfoldable pub parse_controller : String → Result (String × ℕ) ClashApiError
parse_controller controller =
    let trimmed = trim controller in
    elim (rsplit_once b':' trimmed) [
      | none ↦ err (invalid_controller trimmed)
      | some (host, port) ↦ elim (parse_u16 port) [
        | none ↦ err (invalid_controller trimmed)
        | some n ↦ ok (host, n)
      ]
    ]

unfoldable pub new_client : String → Result ClashApiClient ClashApiError
new_client controller = elim (parse_controller controller) [
  | err e ↦ err e
  | ok (host, port) ↦ ok (record { host = host; port = port; timeout = 2 * 1_000_000_000 })
]

unfoldable pub with_timeout : ClashApiClient → ℕ → ClashApiClient
with_timeout self timeout = record self { timeout = timeout }

-- The status in the head of a response, or 0.
unfoldable pub head_status : String → ℕ
head_status head = elim (first_line head) [
  | none ↦ 0
  | some line ↦ elim (second_word line) [
    | none ↦ 0
    | some word ↦ elim (parse_u16 word) [ some n ↦ n | none ↦ 0 ]
  ]
]

module _ {W V : Type 0} (o : Outside W V) where
  unfoldable pub request_text : ClashApiClient → String → String → Option String → String
  request_text self method path body =
      let payload : String = elim body [ some text ↦ text | none ↦ "" ] in
      format (
        method
        ∷ " "
        ∷ path
        ∷ " HTTP/1.1\r\nHost: "
        ∷ self.host
        ∷ "\r\nConnection: close\r\nContent-Type: application/json\r\nContent-Length: "
        ∷ o.len_text payload
        ∷ "\r\n\r\n"
        ∷ payload
        ∷ [])

  -- What is made of the text of a response.
  unfoldable pub read_response : String → Result V ClashApiError
  read_response response = elim (split_once_text "\r\n\r\n" response) [
    | none ↦ err (protocol "malformed http response")
    | some (head, body) ↦
        let status = head_status head in
        if not (leb 200 status && ltb status 300)
        then err (http_status status body)
        else if trim_is_empty body
        then ok o.null
        else map_err json (o.from_str body)
  ]

  unfoldable pub http_request :
      ClashApiClient → String → String → Option String → W → Result V ClashApiError × W
  http_request self method path body w =
      let (received, w') = o.exchange self (request_text self method path body) w in
      (map_err io received >>= read_response, w')

  abbrev pub text_of : Option V → Option String
  text_of none = none
  text_of (some v) = o.as_str v

  -- `filter_map(|entry| entry.as_str())`
  unfoldable pub texts : List V → List String
  texts [] = []
  texts (v ∷ vs) = elim (o.as_str v) [ none ↦ texts vs | some s ↦ s ∷ texts vs ]

  -- An entry of the proxies, when it is a selector.
  unfoldable pub selector : String → V → Option ProxySelector
  selector name value = elim (o.field value) [
    | none ↦ none
    | some field ↦
        let kind : String = elim (text_of (field "type")) [ some kind ↦ kind | none ↦ "" ] in
        if not (eq_ignore_ascii_case kind "selector")
        then none
        else some (record {
          name = name;
          kind = kind;
          now = text_of (field "now");
          all = elim (field "all") [
            | none ↦ []
            | some v ↦ elim (o.as_array v) [ none ↦ [] | some vs ↦ texts vs ]
          ];
        })
  ]

  unfoldable pub selectors : BTreeMap V → List ProxySelector
  selectors [] = []
  selectors ((name, value) ∷ rest) = elim (selector name value) [
    | none ↦ selectors rest
    | some s ↦ s ∷ selectors rest
  ]

  unfoldable pub get_proxy_selectors :
      ClashApiClient → W → Result (List ProxySelector) ClashApiError × W
  get_proxy_selectors self w =
      let (value, w') = http_request self "GET" "/proxies" none w in
      (
        elim (value >>= λ v. map_err json (o.proxies v)) [
          | err e ↦ err e
          | ok ps ↦ ok (selectors ps)
        ],
        w',
      )

  unfoldable pub proxy_path : String → String
  proxy_path name = format ("/proxies/" ∷ o.encode_path name ∷ [])

  unfoldable pub get_active_proxy :
      ClashApiClient → String → W → Result (Option String) ClashApiError × W
  get_active_proxy self selector_name w =
      let (value, w') = http_request self "GET" (proxy_path selector_name) none w in
      (value >>= λ v. map_err json (o.proxy_now v), w')

  unfoldable pub set_active_proxy :
      ClashApiClient → String → String → W → Result (Unit {0}) ClashApiError × W
  set_active_proxy self selector_name proxy_name w =
      let (value, w') =
        http_request self "PUT" (proxy_path selector_name) (some (o.name_json proxy_name)) w in
      (elim value [ err e ↦ err e | ok v ↦ ok tt ], w')

  unfoldable pub get_connections :
      ClashApiClient → W → Result (ConnectionsSnapshot V) ClashApiError × W
  get_connections self w =
      let (value, w') = http_request self "GET" "/connections" none w in
      (value >>= λ v. map_err json (o.connections v), w')

  unfoldable pub get_version : ClashApiClient → W → Result VersionInfo ClashApiError × W
  get_version self w =
      let (value, w') = http_request self "GET" "/version" none w in
      (value >>= λ v. map_err json (o.version v), w')

  unfoldable pub websocket_url : ClashApiClient → String → Result String ClashApiError
  websocket_url self path =
      map_err invalid_controller
        (o.parse_url (format ("ws://" ∷ self.host ∷ ":" ∷ o.u16_text self.port ∷ path ∷ [])))
