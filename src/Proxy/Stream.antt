-- ===== src/Proxy/Stream.antt =====
-- `xray_stream_settings` of crates/shared/proxy-dto/src/project.rs.
use pingling.Prelude.{
  String, List, [], ◌∷◌, Option, none, some, Bool, true, false, str_eq, ◌||◌, if◌then◌else◌,
}
use pingling.Proxy.{WsOpt, H2Opt, GrpcOpt, RealityOpt}
use pingling.Proxy.Json.{JsonValue, set_some, set_if, strings, string_map, unwrap_or}

abbrev pub is_some : {A : Type 0} → Option A → Bool
is_some none = false
is_some (some a) = true

unfoldable pub security : Option RealityOpt → Bool → String
security reality tls = if is_some reality then "reality" else if tls then "tls" else "none"

unfoldable pub network_normalised : String → String
network_normalised network =
    if str_eq network "websocket"
    then "ws"
    else if str_eq network "http2" || str_eq network "h2"
    then "http"
    else network

-- The parameters of `xray_stream_settings`.
pub record StreamOptions : Type 0 where
  pub network : String
  pub tls : Bool
  pub sni : Option String
  pub insecure : Bool
  pub alpn : Option (List String)
  pub ws : Option WsOpt
  pub h2 : Option H2Opt
  pub grpc : Option GrpcOpt
  pub reality : Option RealityOpt
  pub fingerprint : Option String

module _ {V : Type 0} ⦃j : JsonValue V⦄ where
  unfoldable pub tls_settings : StreamOptions → V
  tls_settings o = set_some "fingerprint" j.string o.fingerprint (
      set_some "alpn" strings o.alpn (
        set_if o.insecure "allowInsecure" (j.bool true)
          (set_some "serverName" j.string o.sni (j.object []))))

  unfoldable pub reality_settings : StreamOptions → RealityOpt → V
  reality_settings o reality = set_some "fingerprint" j.string o.fingerprint (
      set_some "serverName" j.string o.sni (
        j.object (
          ("publicKey", j.string reality.public_key)
          ∷ ("shortId", j.string reality.short_id)
          ∷ [])))

  -- `if security == "tls" { .. } else if security == "reality" { .. }`
  unfoldable pub set_security : StreamOptions → V → V
  set_security o s =
      if str_eq (security o.reality o.tls) "tls"
      then j.set s "tlsSettings" (tls_settings o)
      else if str_eq (security o.reality o.tls) "reality"
      then set_some "realitySettings" (reality_settings o) o.reality s
      else s

  unfoldable pub ws_settings : WsOpt → V
  ws_settings ws =
      set_some "headers" string_map ws.headers (set_some "path" j.string ws.path (j.object []))

  unfoldable pub grpc_settings : GrpcOpt → V
  grpc_settings g = j.object (("serviceName", j.string (unwrap_or "" g.grpc_service_name)) ∷ [])

  unfoldable pub http_settings : H2Opt → V
  http_settings h = set_some "path" j.string h.path (set_some "host" strings h.host (j.object []))

  -- `match network_normalised { .. }`
  unfoldable pub set_network : StreamOptions → V → V
  set_network o s =
      let network = network_normalised o.network in
      if str_eq network "ws"
      then set_some "wsSettings" ws_settings o.ws s
      else if str_eq network "grpc"
      then set_some "grpcSettings" grpc_settings o.grpc s
      else if str_eq network "http"
      then set_some "httpSettings" http_settings o.h2 s
      else s

  unfoldable pub xray_stream_settings : StreamOptions → V
  xray_stream_settings o = set_network o (
      set_security o (
        j.object (
          ("network", j.string (network_normalised o.network))
          ∷ ("security", j.string (security o.reality o.tls))
          ∷ [])))
