-- ===== src/Examples/Proxy.antt =====
-- A JSON value, and a VLESS outbound with REALITY options but without TLS.
use pingling.Prelude.{
  String, ◌≡◌, refl, List, [], ◌∷◌, Option, none, some, Bool, true, false, str_eq, if◌then◌else◌,
  Bool-cases, inl, inr,
}
use pingling.Prelude.Int.{ℤ}
use pingling.Proxy.{OutboundVless, ProxyOutbound, vless}
use pingling.Proxy.Json.{JsonValue, Laws, lookup}
use pingling.Proxy.SingBox.{to_singbox_json}
use pingling.Proxy.Xray.{to_xray_json}
use pingling.Proxy.Transport.{over_ws, Agrees, vless_net}
use pingling.Proxy.Transport.Agreement.{projections-Agrees}
use pingling.Proxy.Security.{Secured, vless_reality, projections-Secured}

mutual
  pub data Json : Type 0 where
    nothing : Json
    flag : Bool → Json
    num : ℤ → Json
    text : String → Json
    items : Fields → Json
    obj : Fields → Json

  pub data Fields : Type 0 where
    empty : Fields
    with : String → Json → Fields → Fields

abbrev find : String → Fields → Option Json
find k empty = none
find k (with q v f) = elim (find k f) [
  | some w ↦ some w
  | none ↦ if str_eq q k then some v else none
]

abbrev add : Fields → String → Json → Fields
add empty k w = with k w empty
add (with q v f) k w = with q v (add f k w)

abbrev from_list : List (String × Json) → Fields
from_list [] = empty
from_list ((k, v) ∷ l) = with k v (from_list l)

abbrev from_items : List Json → Fields
from_items [] = empty
from_items (v ∷ l) = with "" v (from_items l)

abbrev assign : Json → String → Json → Json
assign (obj f) k w = obj (add f k w)
assign nothing k w = obj (with k w empty)
assign (flag b) k w = flag b
assign (num n) k w = num n
assign (text s) k w = text s
assign (items f) k w = items f

abbrev member : Json → String → Option Json
member (obj f) k = find k f
member nothing k = none
member (flag b) k = none
member (num n) k = none
member (text s) k = none
member (items f) k = none

instance abbrev pub json : JsonValue Json
json = record {
  null = nothing;
  bool = flag;
  number = num;
  string = text;
  array = λ l. items (from_items l);
  object = λ l. obj (from_list l);
  set = assign;
  get = member;
}

abbrev IsObj : Json → Type 0
IsObj (obj f) = Unit
IsObj nothing = ⊥
IsObj (flag b) = ⊥
IsObj (num n) = ⊥
IsObj (text s) = ⊥
IsObj (items f) = ⊥

find-from_list : (l : List (String × Json)) (k : String) → find k (from_list l) ≡ lookup k l
find-from_list [] k = refl
find-from_list ((q, v) ∷ l) k = rw (find-from_list l k) refl

find-add :
    (f : Fields) (k q : String) (w : Json)
    → find q (add f k w) ≡ (if str_eq k q then some w else find q f)
find-add empty k q w = refl
find-add (with p v f) k q w = elim (Bool-cases (str_eq k q)) [
  | inl e ↦ rw (find-add f k q w, e) refl
  | inr e ↦ rw (find-add f k q w, e) refl
]

assign-IsObj : (v : Json) (k : String) (w : Json) → IsObj v → IsObj (assign v k w)
assign-IsObj (obj f) k w h = tt
assign-IsObj nothing k w h = absurd h
assign-IsObj (flag b) k w h = absurd h
assign-IsObj (num n) k w h = absurd h
assign-IsObj (text s) k w h = absurd h
assign-IsObj (items f) k w h = absurd h

member-assign :
    (v : Json) (k q : String) (w : Json)
    → IsObj v
    → member (assign v k w) q ≡ (if str_eq k q then some w else member v q)
member-assign (obj f) k q w h = find-add f k q w
member-assign nothing k q w h = absurd h
member-assign (flag b) k q w h = absurd h
member-assign (num n) k q w h = absurd h
member-assign (text s) k q w h = absurd h
member-assign (items f) k q w h = absurd h

json-Laws : Laws json
json-Laws = record {
  IsObject = IsObj;
  object_is = λ l. tt;
  set_is = assign-IsObj;
  get_object = find-from_list;
  get_set = member-assign;
}

abbrev tokyo : OutboundVless
tokyo = record {
  common_opts = record {
    name = "jp-tokyo-1";
    server = "203.0.113.10";
    port = 443;
    connect_via = none;
  };
  uuid = "u";
  udp = none;
  tls = none;
  skip_cert_verify = none;
  server_name = some "example.com";
  network = some "websocket";
  ws_opts = some (record {
    path = some "/vl";
    headers = none;
    max_early_data = none;
    early_data_header_name = none;
  });
  h2_opts = none;
  grpc_opts = none;
  reality_opts = some (record { public_key = "pk"; short_id = "beef" });
  flow = none;
  client_fingerprint = none;
}

abbrev outbound : ProxyOutbound Unit
outbound = vless tokyo

projections-Agrees_example :
    Agrees {V = Json}
      (some (
        over_ws (record {
          path = some "/vl";
          headers = none;
          max_early_data = none;
          early_data_header_name = none;
        })))
      (to_singbox_json outbound)
      (to_xray_json outbound)
projections-Agrees_example = projections-Agrees json-Laws outbound _ (vless_net tokyo)

-- No TLS for sing-box, REALITY for xray.
projections-Secured_example :
    Secured {V = Json} false true false (to_singbox_json outbound) (to_xray_json outbound)
projections-Secured_example =
    projections-Secured json-Laws outbound false true false (vless_reality tokyo)
