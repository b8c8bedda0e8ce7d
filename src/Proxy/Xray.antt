-- ===== src/Proxy/Xray.antt =====
-- `ToXrayJson` of crates/shared/proxy-dto/src/project.rs.
use pingling.Prelude.{String, List, [], ◌∷◌, none, true, false}
use pingling.Prelude.Text.{format}
use pingling.Proxy.{
  OutboundShadowsocks, OutboundTrojan, OutboundVmess, OutboundVless, ProxyOutbound, direct, reject,
  ss, socks5, trojan, vmess, vless, wireguard, tuic, hysteria2, name, type_tag,
}
use pingling.Proxy.Stream.{StreamOptions, xray_stream_settings}
use pingling.Proxy.Json.{JsonValue, nat, unwrap_or}

abbrev pub trojan_stream : OutboundTrojan → StreamOptions
trojan_stream t = record {
  network = unwrap_or "tcp" t.network;
  tls = true;
  sni = t.sni;
  insecure = unwrap_or false t.skip_cert_verify;
  alpn = t.alpn;
  ws = t.ws_opts;
  h2 = none;
  grpc = t.grpc_opts;
  reality = none;
  fingerprint = none;
}

abbrev pub vmess_stream : OutboundVmess → StreamOptions
vmess_stream v = record {
  network = unwrap_or "tcp" v.network;
  tls = unwrap_or false v.tls;
  sni = v.server_name;
  insecure = unwrap_or false v.skip_cert_verify;
  alpn = none;
  ws = v.ws_opts;
  h2 = v.h2_opts;
  grpc = v.grpc_opts;
  reality = none;
  fingerprint = none;
}

abbrev pub vless_stream : OutboundVless → StreamOptions
vless_stream v = record {
  network = unwrap_or "tcp" v.network;
  tls = unwrap_or false v.tls;
  sni = v.server_name;
  insecure = unwrap_or false v.skip_cert_verify;
  alpn = none;
  ws = v.ws_opts;
  h2 = v.h2_opts;
  grpc = v.grpc_opts;
  reality = v.reality_opts;
  fingerprint = v.client_fingerprint;
}

module _ {V : Type 0} ⦃j : JsonValue V⦄ where
  -- `"settings": {"servers": [{ .. }]}` and the like: one object in a list.
  abbrev pub single : String → List (String × V) → V
  single key fields = j.object ((key, j.array (j.object fields ∷ [])) ∷ [])

  unfoldable pub shadowsocks_to_xray : {Y : Type 0} → OutboundShadowsocks Y → V
  shadowsocks_to_xray s = j.object (
      ("tag", j.string s.common_opts.name)
      ∷ ("protocol", j.string "shadowsocks")
      ∷ (
        "settings",
        single "servers" (
            ("address", j.string s.common_opts.server)
            ∷ ("port", nat s.common_opts.port)
            ∷ ("method", j.string s.cipher)
            ∷ ("password", j.string s.password)
            ∷ []),
      )
      ∷ [])

  unfoldable pub trojan_to_xray : OutboundTrojan → V
  trojan_to_xray t = j.object (
      ("tag", j.string t.common_opts.name)
      ∷ ("protocol", j.string "trojan")
      ∷ (
        "settings",
        single "servers" (
            ("address", j.string t.common_opts.server)
            ∷ ("port", nat t.common_opts.port)
            ∷ ("password", j.string t.password)
            ∷ []),
      )
      ∷ ("streamSettings", xray_stream_settings (trojan_stream t))
      ∷ [])

  unfoldable pub vmess_to_xray : OutboundVmess → V
  vmess_to_xray v = j.object (
      ("tag", j.string v.common_opts.name)
      ∷ ("protocol", j.string "vmess")
      ∷ (
        "settings",
        single "vnext" (
            ("address", j.string v.common_opts.server)
            ∷ ("port", nat v.common_opts.port)
            ∷ (
              "users",
              j.array (
                  j.object (
                    ("id", j.string v.uuid)
                    ∷ ("alterId", nat v.alter_id)
                    ∷ ("security", j.string (unwrap_or "auto" v.cipher))
                    ∷ [])
                  ∷ []),
            )
            ∷ []),
      )
      ∷ ("streamSettings", xray_stream_settings (vmess_stream v))
      ∷ [])

  unfoldable pub vless_to_xray : OutboundVless → V
  vless_to_xray v = j.object (
      ("tag", j.string v.common_opts.name)
      ∷ ("protocol", j.string "vless")
      ∷ (
        "settings",
        single "vnext" (
            ("address", j.string v.common_opts.server)
            ∷ ("port", nat v.common_opts.port)
            ∷ (
              "users",
              j.array (
                  j.object (
                    ("id", j.string v.uuid)
                    ∷ ("flow", j.string (unwrap_or "" v.flow))
                    ∷ ("encryption", j.string "none")
                    ∷ [])
                  ∷ []),
            )
            ∷ []),
      )
      ∷ ("streamSettings", xray_stream_settings (vless_stream v))
      ∷ [])

  -- What xray has no form for.
  unfoldable pub unsupported : {Y : Type 0} → ProxyOutbound Y → V
  unsupported o = j.object (
      ("tag", j.string (name o))
      ∷ ("protocol", j.string "unsupported")
      ∷ (
        "_note",
        j.string (format (type_tag o ∷ " is not representable in xray outbound JSON" ∷ [])),
      )
      ∷ [])

  unfoldable pub to_xray_json : {Y : Type 0} → ProxyOutbound Y → V
  to_xray_json (direct d) =
      j.object (
        ("tag", j.string d.name)
        ∷ ("protocol", j.string "freedom")
        ∷ ("settings", j.object [])
        ∷ [])
  to_xray_json (reject r) = j.object (
      ("tag", j.string r.name)
      ∷ ("protocol", j.string "blackhole")
      ∷ ("settings", j.object [])
      ∷ [])
  to_xray_json (ss s) = shadowsocks_to_xray s
  to_xray_json (trojan t) = trojan_to_xray t
  to_xray_json (vmess v) = vmess_to_xray v
  to_xray_json (vless v) = vless_to_xray v
  to_xray_json {Y = Y} (socks5 s) = unsupported {Y = Y} (socks5 s)
  to_xray_json {Y = Y} (wireguard w) = unsupported {Y = Y} (wireguard w)
  to_xray_json {Y = Y} (tuic t) = unsupported {Y = Y} (tuic t)
  to_xray_json {Y = Y} (hysteria2 h) = unsupported {Y = Y} (hysteria2 h)
