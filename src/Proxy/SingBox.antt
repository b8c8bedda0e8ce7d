-- ===== src/Proxy/SingBox.antt =====
-- `ToSingBoxJson` of crates/shared/proxy-dto/src/project.rs.
use Prim.Native.Nat.{◌/◌}
use pingling.Prelude.{
  ℕ, String, List, [], ◌∷◌, ◌++◌, map, Option, none, some, Bool, true, false, not, str_eq, ◌||◌,
  if◌then◌else◌,
}
use pingling.Prelude.Text.{format}
use pingling.Proxy.{
  CommonOptions, WsOpt, H2Opt, GrpcOpt, RealityOpt, OutboundShadowsocks, OutboundSocks5,
  OutboundTrojan, OutboundVmess, OutboundVless, OutboundWireguard, OutboundTuic, OutboundHysteria2,
  Hysteria2Obfs, salamander, ProxyOutbound, direct, reject, ss, socks5, trojan, vmess, vless,
  wireguard, tuic, hysteria2,
}
use pingling.Proxy.Json.{JsonValue, set_some, set_if, nat, strings, string_map, optional, unwrap_or}

unfoldable pub local_addresses : OutboundWireguard → List String
local_addresses w = elim w.ipv6 [
  | none ↦ format (w.ip ∷ "/32" ∷ []) ∷ []
  | some ipv6 ↦ format (w.ip ∷ "/32" ∷ []) ∷ format (ipv6 ∷ "/128" ∷ []) ∷ []
]

abbrev pub obfs_kind : Hysteria2Obfs → String
obfs_kind salamander = "salamander"

module _ {V : Type 0} ⦃j : JsonValue V⦄ where
  unfoldable pub tls_block : Bool → Option String → Bool → Option (List String) → V
  tls_block enabled server_name insecure alpn = set_some "alpn" strings alpn (
      set_if insecure "insecure" (j.bool true)
        (set_some "server_name" j.string server_name (j.object (("enabled", j.bool enabled) ∷ []))))

  unfoldable pub ws_transport : WsOpt → V
  ws_transport ws = set_some "early_data_header_name" j.string ws.early_data_header_name (
      set_some "max_early_data" j.number ws.max_early_data (
        set_some "headers" string_map ws.headers
          (set_some "path" j.string ws.path (j.object (("type", j.string "ws") ∷ [])))))

  unfoldable pub grpc_transport : GrpcOpt → V
  grpc_transport g = j.object (
      ("type", j.string "grpc")
      ∷ ("service_name", j.string (unwrap_or "" g.grpc_service_name))
      ∷ [])

  unfoldable pub http_transport : H2Opt → V
  http_transport h =
      set_some "path" j.string h.path
        (set_some "host" strings h.host (j.object (("type", j.string "http") ∷ [])))

  unfoldable pub attach_transport :
      V → Option String → Option WsOpt → Option H2Opt → Option GrpcOpt → V
  attach_transport out none ws h2 grpc = out
  attach_transport out (some network) ws h2 grpc =
      if str_eq network "ws" || str_eq network "websocket"
      then set_some "transport" ws_transport ws out
      else if str_eq network "grpc"
      then set_some "transport" grpc_transport grpc out
      else if str_eq network "h2" || str_eq network "http" || str_eq network "http2"
      then set_some "transport" http_transport h2 out
      else out

  -- The fields that the objects of a server begin with.
  abbrev pub server_fields : String → CommonOptions → List (String × V)
  server_fields kind c =
      ("type", j.string kind)
      ∷ ("tag", j.string c.name)
      ∷ ("server", j.string c.server)
      ∷ ("server_port", nat c.port)
      ∷ []

  abbrev pub shadowsocks_fields : {Y : Type 0} → OutboundShadowsocks Y → List (String × V)
  shadowsocks_fields s =
      server_fields "shadowsocks" s.common_opts
      ++ ("method", j.string s.cipher)
        ∷ ("password", j.string s.password)
        ∷ ("udp_over_tcp", j.bool (not s.udp))
        ∷ []

  unfoldable pub shadowsocks_to_singbox : {Y : Type 0} → OutboundShadowsocks Y → V
  shadowsocks_to_singbox s = j.object (shadowsocks_fields s)

  -- The object that it starts with.
  abbrev pub trojan_fields : OutboundTrojan → List (String × V)
  trojan_fields t =
      server_fields "trojan" t.common_opts
      ++ ("password", j.string t.password)
        ∷ ("tls", tls_block true t.sni (unwrap_or false t.skip_cert_verify) t.alpn)
        ∷ []

  unfoldable pub trojan_to_singbox : OutboundTrojan → V
  trojan_to_singbox t =
      attach_transport (j.object (trojan_fields t)) t.network t.ws_opts none t.grpc_opts

  -- The object that it starts with.
  abbrev pub vmess_fields : OutboundVmess → List (String × V)
  vmess_fields v =
      server_fields "vmess" v.common_opts
      ++ ("uuid", j.string v.uuid)
        ∷ ("alter_id", nat v.alter_id)
        ∷ ("security", j.string (unwrap_or "auto" v.cipher))
        ∷ []

  unfoldable pub vmess_to_singbox : OutboundVmess → V
  vmess_to_singbox v =
      attach_transport
        (set_if (unwrap_or false v.tls) "tls"
          (tls_block true v.server_name (unwrap_or false v.skip_cert_verify) none)
          (j.object (vmess_fields v)))
        v.network v.ws_opts v.h2_opts v.grpc_opts

  unfoldable pub reality_block : RealityOpt → V
  reality_block reality = j.object (
      ("enabled", j.bool true)
      ∷ ("public_key", j.string reality.public_key)
      ∷ ("short_id", j.string reality.short_id)
      ∷ [])

  unfoldable pub utls_block : String → V
  utls_block fp = j.object (("enabled", j.bool true) ∷ ("fingerprint", j.string fp) ∷ [])

  unfoldable pub vless_tls : OutboundVless → V
  vless_tls v = set_some "utls" utls_block v.client_fingerprint (
      set_some "reality" reality_block v.reality_opts
        (tls_block true v.server_name (unwrap_or false v.skip_cert_verify) none))

  -- The object that it starts with.
  abbrev pub vless_fields : OutboundVless → List (String × V)
  vless_fields v = server_fields "vless" v.common_opts ++ ("uuid", j.string v.uuid) ∷ []

  unfoldable pub vless_to_singbox : OutboundVless → V
  vless_to_singbox v =
      attach_transport
        (set_if (unwrap_or false v.tls) "tls" (vless_tls v)
          (set_some "flow" j.string v.flow (j.object (vless_fields v))))
        v.network v.ws_opts v.h2_opts v.grpc_opts

  -- The object that it starts with.
  abbrev pub wireguard_fields : OutboundWireguard → List (String × V)
  wireguard_fields w =
      server_fields "wireguard" w.common_opts
      ++ ("local_address", strings (local_addresses w))
        ∷ ("private_key", j.string w.private_key)
        ∷ ("peer_public_key", j.string w.public_key)
        ∷ []

  unfoldable pub wireguard_to_singbox : OutboundWireguard → V
  wireguard_to_singbox w =
      set_some "reserved" (λ bits. j.array (map nat bits)) w.reserved_bits
        (set_some "mtu" nat w.mtu
          (set_some "pre_shared_key" j.string w.pre_shared_key (j.object (wireguard_fields w))))

  -- The object that it starts with.
  abbrev pub tuic_fields : OutboundTuic → List (String × V)
  tuic_fields t =
      server_fields "tuic" t.common_opts
      ++ ("uuid", j.string t.uuid)
        ∷ ("password", j.string t.password)
        ∷ ("tls", tls_block true t.sni (unwrap_or false t.skip_cert_verify) t.alpn)
        ∷ []

  unfoldable pub tuic_to_singbox : OutboundTuic → V
  tuic_to_singbox t = set_if (unwrap_or false t.reduce_rtt) "zero_rtt_handshake" (j.bool true) (
      set_some "udp_relay_mode" j.string t.udp_relay_mode
        (set_some "congestion_control" j.string t.congestion_controller (j.object (tuic_fields t))))

  -- `up / 1_000_000`
  abbrev pub mbps : ℕ → V
  mbps bps = nat (bps / 1000000)

  abbrev pub hysteria2_fields : OutboundHysteria2 → List (String × V)
  hysteria2_fields h =
      ("type", j.string "hysteria2")
      ∷ ("tag", j.string h.name)
      ∷ ("server", j.string h.server)
      ∷ ("server_port", nat h.port)
      ∷ ("password", j.string h.password)
      ∷ ("tls", tls_block true h.sni h.skip_cert_verify h.alpn)
      ∷ []

  unfoldable pub hysteria2_to_singbox : OutboundHysteria2 → V
  hysteria2_to_singbox h = set_some "server_ports" j.string h.ports (
      set_some "down_mbps" mbps h.down (
        set_some "up_mbps" mbps h.up (
          set_some "obfs"
            (λ obfs. j.object (
              ("type", j.string (obfs_kind obfs))
              ∷ ("password", j.string (unwrap_or "" h.obfs_password))
              ∷ []))
            h.obfs (j.object (hysteria2_fields h)))))

  abbrev pub socks5_fields : OutboundSocks5 → List (String × V)
  socks5_fields s =
      server_fields "socks" s.common_opts
      ++ ("version", j.string "5")
        ∷ ("username", optional j.string s.username)
        ∷ ("password", optional j.string s.password)
        ∷ ("udp_over_tcp", j.bool (not s.udp))
        ∷ []

  abbrev pub named : String → String → List (String × V)
  named kind tag = ("type", j.string kind) ∷ ("tag", j.string tag) ∷ []

  unfoldable pub to_singbox_json : {Y : Type 0} → ProxyOutbound Y → V
  to_singbox_json (direct d) = j.object (named "direct" d.name)
  to_singbox_json (reject r) = j.object (named "block" r.name)
  to_singbox_json (ss s) = shadowsocks_to_singbox s
  to_singbox_json (socks5 s) = j.object (socks5_fields s)
  to_singbox_json (trojan t) = trojan_to_singbox t
  to_singbox_json (vmess v) = vmess_to_singbox v
  to_singbox_json (vless v) = vless_to_singbox v
  to_singbox_json (wireguard w) = wireguard_to_singbox w
  to_singbox_json (tuic t) = tuic_to_singbox t
  to_singbox_json (hysteria2 h) = hysteria2_to_singbox h
