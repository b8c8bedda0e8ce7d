-- ===== src/Proxy/Transport.antt =====
-- The transport of an outbound, apart from any core's form of it.
pub mod Settings
pub mod Fields
pub mod Agreement
use pingling.Prelude.{
  String, ◌≡◌, refl, sym, ap, subst, ◌∙◌, List, [], ◌∷◌, Option, none, some, Bool, true, false,
  str_eq, ◌||◌, if◌then◌else◌,
}
use pingling.Proxy.{
  WsOpt, H2Opt, GrpcOpt, OutboundTrojan, OutboundVmess, OutboundVless, ProxyOutbound, direct,
  reject, ss, socks5, trojan, vmess, vless, wireguard, tuic, hysteria2,
}
use pingling.Proxy.Json.{JsonValue, unwrap_or, string_map, strings}
use pingling.Proxy.Fields.{
  Has, object-Has, set_some-Has, set_if-Has, set_some-New, option_map, if_Has, set_other, set_same,
}
use pingling.Proxy.SingBox.{
  to_singbox_json, attach_transport, ws_transport, grpc_transport, http_transport,
  trojan_to_singbox, trojan_fields, vmess_to_singbox, vmess_fields, vless_to_singbox, vless_fields,
}
use pingling.Proxy.Stream.{
  StreamOptions, network_normalised, security, set_security, set_network, xray_stream_settings,
  ws_settings, grpc_settings, http_settings, tls_settings, reality_settings,
}
use pingling.Proxy.Network.{is_ws, is_grpc, is_http}
use pingling.Proxy.Xray.{
  to_xray_json, trojan_to_xray, trojan_stream, vmess_to_xray, vmess_stream, vless_to_xray,
  vless_stream,
}

-- What an outbound is carried by, when it is neither TCP nor UDP as they are.
pub data Transport : Type 0 where
  over_ws : WsOpt → Transport
  over_grpc : GrpcOpt → Transport
  over_http : H2Opt → Transport

-- A named network with its options; without options there is nothing to tell a core.
abbrev pub transport_of :
    Option String → Option WsOpt → Option H2Opt → Option GrpcOpt → Option Transport
transport_of none ws h2 grpc = none
transport_of (some network) ws h2 grpc =
    if str_eq network "ws" || str_eq network "websocket"
    then option_map over_ws ws
    else if str_eq network "grpc"
    then option_map over_grpc grpc
    else if str_eq network "h2" || str_eq network "http" || str_eq network "http2"
    then option_map over_http h2
    else none

-- How xray names the network.
abbrev pub kind : Transport → String
kind (over_ws ws) = "ws"
kind (over_grpc g) = "grpc"
kind (over_http h) = "http"

abbrev pub the_ws : Option Transport → Option WsOpt
the_ws none = none
the_ws (some (over_ws ws)) = some ws
the_ws (some (over_grpc g)) = none
the_ws (some (over_http h)) = none

abbrev pub the_grpc : Option Transport → Option GrpcOpt
the_grpc none = none
the_grpc (some (over_ws ws)) = none
the_grpc (some (over_grpc g)) = some g
the_grpc (some (over_http h)) = none

abbrev pub the_http : Option Transport → Option H2Opt
the_http none = none
the_http (some (over_ws ws)) = none
the_http (some (over_grpc g)) = none
the_http (some (over_http h)) = some h

-- The kinds of outbound that have a network, each with its options.
pub data Networked {Y : Type 0} : ProxyOutbound Y → Option Transport → Type 0 where
  trojan_net :
      (t : OutboundTrojan)
      → Networked (trojan t) (transport_of t.network t.ws_opts none t.grpc_opts)
  vmess_net :
      (v : OutboundVmess)
      → Networked (vmess v) (transport_of v.network v.ws_opts v.h2_opts v.grpc_opts)
  vless_net :
      (v : OutboundVless)
      → Networked (vless v) (transport_of v.network v.ws_opts v.h2_opts v.grpc_opts)

-- No network is TCP, which has no transport.
pub tcp_lem :
    (network : Option String) (ws : Option WsOpt) (h2 : Option H2Opt) (grpc : Option GrpcOpt)
    → transport_of (some (unwrap_or "tcp" network)) ws h2 grpc ≡ transport_of network ws h2 grpc
tcp_lem none ws h2 grpc = refl
tcp_lem (some n) ws h2 grpc = refl

module _ {V : Type 0} ⦃j : JsonValue V⦄ where
  abbrev pub transport_block : Transport → V
  transport_block (over_ws ws) = ws_transport ws
  transport_block (over_grpc g) = grpc_transport g
  transport_block (over_http h) = http_transport h

  abbrev pub ws_shown : Option Transport → Option V
  ws_shown t = option_map ws_settings (the_ws t)

  abbrev pub grpc_shown : Option Transport → Option V
  grpc_shown t = option_map grpc_settings (the_grpc t)

  abbrev pub http_shown : Option Transport → Option V
  http_shown t = option_map http_settings (the_http t)

  -- The sing-box object and the stream settings of xray show this transport.
  pub record Shows (t : Option Transport) (singbox stream : V) : Type 0 where
    pub transport : j.get singbox "transport" ≡ option_map transport_block t
    pub ws : j.get stream "wsSettings" ≡ ws_shown t
    pub grpc : j.get stream "grpcSettings" ≡ grpc_shown t
    pub http : j.get stream "httpSettings" ≡ http_shown t

  -- The same transport in the sing-box object and in the stream settings of xray, by their fields.
  pub data Carried (singbox stream : V) : Option Transport → Type 0 where
    as_it_is :
        j.get singbox "transport" ≡ none
        → j.get stream "wsSettings" ≡ none
        → j.get stream "grpcSettings" ≡ none
        → j.get stream "httpSettings" ≡ none
        → Carried singbox stream none
    by_ws :
        (ws : WsOpt) (block settings : V)
        → j.get singbox "transport" ≡ some block
        → j.get block "type" ≡ some (j.string "ws")
        → j.get block "path" ≡ option_map j.string ws.path
        → j.get block "headers" ≡ option_map string_map ws.headers
        → j.get stream "network" ≡ some (j.string "ws")
        → j.get stream "wsSettings" ≡ some settings
        → j.get settings "path" ≡ option_map j.string ws.path
        → j.get settings "headers" ≡ option_map string_map ws.headers
        → j.get stream "grpcSettings" ≡ none
        → j.get stream "httpSettings" ≡ none
        → Carried singbox stream (some (over_ws ws))
    by_grpc :
        (g : GrpcOpt) (block settings : V)
        → j.get singbox "transport" ≡ some block
        → j.get block "type" ≡ some (j.string "grpc")
        → j.get block "service_name" ≡ some (j.string (unwrap_or "" g.grpc_service_name))
        → j.get stream "network" ≡ some (j.string "grpc")
        → j.get stream "grpcSettings" ≡ some settings
        → j.get settings "serviceName" ≡ some (j.string (unwrap_or "" g.grpc_service_name))
        → j.get stream "wsSettings" ≡ none
        → j.get stream "httpSettings" ≡ none
        → Carried singbox stream (some (over_grpc g))
    by_http :
        (h : H2Opt) (block settings : V)
        → j.get singbox "transport" ≡ some block
        → j.get block "type" ≡ some (j.string "http")
        → j.get block "path" ≡ option_map j.string h.path
        → j.get block "host" ≡ option_map strings h.host
        → j.get stream "network" ≡ some (j.string "http")
        → j.get stream "httpSettings" ≡ some settings
        → j.get settings "path" ≡ option_map j.string h.path
        → j.get settings "host" ≡ option_map strings h.host
        → j.get stream "wsSettings" ≡ none
        → j.get stream "grpcSettings" ≡ none
        → Carried singbox stream (some (over_http h))

  -- An outbound in both projections: its `streamSettings` carry what sing-box has as `transport`.
  pub record Agrees (t : Option Transport) (singbox xray : V) : Type 0 where
    pub stream : V
    pub at_stream : j.get xray "streamSettings" ≡ some stream
    pub carried : Carried singbox stream t
