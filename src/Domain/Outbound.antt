-- ===== src/Domain/Outbound.antt =====
-- Outbounds and connections of crates/domain/src/types.rs.
pub mod Names
use pingling.Prelude.{ℕ, String, List, Option, Bool, str_eq, if◌then◌else◌, ◌||◌}
use pingling.Prelude.BTreeMap.{BTreeMap}

pub data OutboundProtocol : Type 0 where
  vless vmess trojan shadowsocks wireguard hysteria hysteria2 : OutboundProtocol
  tuic direct selector url_test : OutboundProtocol
  other : String → OutboundProtocol

unfoldable pub protocol_str : OutboundProtocol → String
protocol_str vless = "vless"
protocol_str vmess = "vmess"
protocol_str trojan = "trojan"
protocol_str shadowsocks = "shadowsocks"
protocol_str wireguard = "wireguard"
protocol_str hysteria = "hysteria"
protocol_str hysteria2 = "hysteria2"
protocol_str tuic = "tuic"
protocol_str direct = "direct"
protocol_str selector = "selector"
protocol_str url_test = "urltest"
protocol_str (other s) = s

-- `OutboundProtocol::from_str`, which never fails
unfoldable pub protocol_from_str : String → OutboundProtocol
protocol_from_str s =
    if str_eq s "vless"
    then vless
    else if str_eq s "vmess"
    then vmess
    else if str_eq s "trojan"
    then trojan
    else if str_eq s "shadowsocks" || str_eq s "ss"
    then shadowsocks
    else if str_eq s "wireguard" || str_eq s "wg"
    then wireguard
    else if str_eq s "hysteria"
    then hysteria
    else if str_eq s "hysteria2"
    then hysteria2
    else if str_eq s "tuic"
    then tuic
    else if str_eq s "direct"
    then direct
    else if str_eq s "selector"
    then selector
    else if str_eq s "urltest"
    then url_test
    else other s

pub data OutboundTransport : Type 0 where
  tcp udp http web_socket quic grpc : OutboundTransport
  other_transport : ℕ → OutboundTransport

unfoldable pub transport_str : OutboundTransport → String
transport_str tcp = "tcp"
transport_str udp = "udp"
transport_str http = "http"
transport_str web_socket = "ws"
transport_str quic = "quic"
transport_str grpc = "grpc"
transport_str (other_transport n) = "unknown"

unfoldable pub transport_from_str : String → OutboundTransport
transport_from_str s =
    if str_eq s "tcp"
    then tcp
    else if str_eq s "udp"
    then udp
    else if str_eq s "http" || str_eq s "h2" || str_eq s "http2"
    then http
    else if str_eq s "ws" || str_eq s "websocket"
    then web_socket
    else if str_eq s "quic"
    then quic
    else if str_eq s "grpc"
    then grpc
    else other_transport 0

pub record Outbound : Type 0 where
  pub id : String
  pub name : String
  pub protocol : OutboundProtocol
  pub transport : OutboundTransport
  pub country_code : Option String
  pub location : Option String
  pub latency_ms : Option ℕ
  pub selected : Bool
  pub metadata : BTreeMap String

pub record ConnectionInfo : Type 0 where
  pub server_name : String
  pub server_id : Option String
  pub country_code : Option String
  pub connected_at : Option ℕ
  pub session_id : Option String
