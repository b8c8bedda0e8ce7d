-- ===== src/Proxy/Security.antt =====
-- Whether an outbound is sent over TLS, in its projections.
use pingling.Prelude.{
  String, List, ◌≡◌, refl, ap, ◌∙◌, [], ◌∷◌, Option, none, some, Bool, true, false, not, str_eq,
  ◌||◌, if◌then◌else◌,
}
use pingling.Proxy.{
  RealityOpt, OutboundTrojan, OutboundVmess, OutboundVless, ProxyOutbound, trojan, vmess, vless,
}
use pingling.Proxy.Json.{JsonValue, Laws, set_if, unwrap_or}
use pingling.Proxy.Fields.{
  Has, object-Has, set_some-Has, attach_transport-Has, if_Has, set_if-Has, set_other, set_same,
}
use pingling.Proxy.SingBox.{
  to_singbox_json, trojan_to_singbox, trojan_fields, vmess_to_singbox, vmess_fields,
  vless_to_singbox, vless_fields, vless_tls, tls_block,
}
use pingling.Proxy.Stream.{
  StreamOptions, is_some, security, network_normalised, set_security, set_network,
  xray_stream_settings, ws_settings, grpc_settings, http_settings, tls_settings, reality_settings,
}
use pingling.Proxy.Xray.{
  to_xray_json, trojan_to_xray, trojan_stream, vmess_to_xray, vmess_stream, vless_to_xray,
  vless_stream,
}

security_lem :
    (reality : Option RealityOpt) (tls : Bool)
    → str_eq (security reality tls) "none" ≡ not (tls || is_some reality)
unfolding security
security_lem none true = refl
security_lem none false = refl
security_lem (some r) true = refl
security_lem (some r) false = refl

-- The Trojan, VMess and VLESS outbounds: whether sing-box shall use TLS, whether xray shall use TLS or
-- REALITY, and whether the certificate of the server goes unchecked.
pub data Tls {Y : Type 0} : ProxyOutbound Y → Bool → Bool → Bool → Type 0 where
  trojan_tls : (t : OutboundTrojan) → Tls (trojan t) true true (unwrap_or false t.skip_cert_verify)
  vmess_tls :
      (v : OutboundVmess)
      → Tls
          (vmess v)
          (unwrap_or false v.tls)
          (unwrap_or false v.tls)
          (unwrap_or false v.skip_cert_verify)
  vless_reality :
      (v : OutboundVless)
      → Tls
          (vless v)
          (unwrap_or false v.tls)
          (unwrap_or false v.tls || is_some v.reality_opts)
          (unwrap_or false v.skip_cert_verify)

module _ {V : Type 0} ⦃j : JsonValue V⦄ where
  -- The `tls` of sing-box: a block that is enabled and says whether certificates go unchecked, or
  -- nothing.
  pub data TlsOf (asked skip : Bool) (tls : Option V) : Type 0 where
    enabled :
        (block : V)
        → asked ≡ true
        → tls ≡ some block
        → j.get block "enabled" ≡ some (j.bool true)
        → j.get block "insecure" ≡ (if skip then some (j.bool true) else none)
        → TlsOf asked skip tls
    plain : asked ≡ false → tls ≡ none → TlsOf asked skip tls

  -- The `tls` of sing-box, and the `security` of xray, which is another than "none" or is "none".
  pub record Secured (by_singbox by_xray skip : Bool) (singbox xray : V) : Type 0 where
    pub tls : TlsOf by_singbox skip (j.get singbox "tls")
    pub stream : V
    pub at_stream : j.get xray "streamSettings" ≡ some stream
    pub level : String
    pub at_level : j.get stream "security" ≡ some (j.string level)
    pub none_level : str_eq level "none" ≡ not by_xray

module _ {V : Type 0} ⦃j : JsonValue V⦄ (laws : Laws j) where
  set_network-security :
      (o : StreamOptions) (out : V) (x : Option V)
      → Has laws out "security" x
      → Has laws (set_network o out) "security" x
  unfolding set_network
  set_network-security o out x h =
      let n = network_normalised o.network in
      if_Has laws (str_eq n "ws") _ _
        (set_some-Has laws "wsSettings" "security" ws_settings o.ws out x refl h)
        (if_Has laws (str_eq n "grpc") _ _
          (set_some-Has laws "grpcSettings" "security" grpc_settings o.grpc out x refl h)
          (if_Has laws (str_eq n "http") _ _
            (set_some-Has laws "httpSettings" "security" http_settings o.h2 out x refl h) h))

  set_security-security :
      (o : StreamOptions) (out : V) (x : Option V)
      → Has laws out "security" x
      → Has laws (set_security o out) "security" x
  unfolding set_security
  set_security-security o out x h =
      if_Has laws (str_eq (security o.reality o.tls) "tls") _ _
        (set_other laws out (tls_settings o) "tlsSettings" "security" x refl h)
        (if_Has laws (str_eq (security o.reality o.tls) "reality") _ _
          (set_some-Has laws "realitySettings" "security" (reality_settings o) o.reality out x refl
            h)
          h)

  stream-security :
      (o : StreamOptions)
      → j.get (xray_stream_settings o) "security" ≡ some (j.string (security o.reality o.tls))
  unfolding xray_stream_settings
  stream-security o =
      (set_network-security o _ _ (
        set_security-security o _ _ (
          object-Has laws
            (("network", j.string (network_normalised o.network))
              ∷ ("security", j.string (security o.reality o.tls))
              ∷ [])
            "security"))).at

  -- A field that is set under a flag.
  flagged :
      (b : Bool) (k : String) (block out : V)
      → Has laws out k none
      → Has laws (set_if b k block out) k (if b then some block else none)
  unfolding set_if
  flagged true k block out h = set_same laws out block k k none h
  flagged false k block out h = h

  -- A block is enabled, and says whether certificates go unchecked.
  record Checks (skip : Bool) (block : V) : Type 0 where
    on : Has laws block "enabled" (some (j.bool true))
    unchecked : Has laws block "insecure" (if skip then some (j.bool true) else none)

  tls_block-Checks :
      (name : Option String) (skip : Bool) (alpn : Option (List String))
      → Checks skip (tls_block true name skip alpn)
  unfolding tls_block
  tls_block-Checks name skip alpn = record {
    on = set_some-Has laws "alpn" "enabled" _ alpn _ _ refl (
        set_if-Has laws skip "insecure" "enabled" _ _ _ refl (
          set_some-Has laws "server_name" "enabled" _ name _ _ refl
            (object-Has laws (("enabled", j.bool true) ∷ []) "enabled")));
    unchecked = set_some-Has laws "alpn" "insecure" _ alpn _ _ refl (
        flagged skip "insecure" _ _ (
          set_some-Has laws "server_name" "insecure" _ name _ _ refl
            (object-Has laws (("enabled", j.bool true) ∷ []) "insecure")));
  }

  vless_tls-Checks : (v : OutboundVless) → Checks (unwrap_or false v.skip_cert_verify) (vless_tls v)
  unfolding vless_tls
  vless_tls-Checks v =
      let c = tls_block-Checks v.server_name (unwrap_or false v.skip_cert_verify) none in
      record {
        on =
            set_some-Has laws "utls" "enabled" _ v.client_fingerprint _ _ refl
              (set_some-Has laws "reality" "enabled" _ v.reality_opts _ _ refl c.on);
        unchecked =
            set_some-Has laws "utls" "insecure" _ v.client_fingerprint _ _ refl
              (set_some-Has laws "reality" "insecure" _ v.reality_opts _ _ refl c.unchecked);
      }

  Checks-TlsOf :
      (b skip : Bool) (block : V) (x : Option V)
      → x ≡ (if b then some block else none)
      → Checks skip block
      → TlsOf b skip x
  Checks-TlsOf true skip block x e c = enabled block refl e c.on.at c.unchecked.at
  Checks-TlsOf false skip block x e c = plain refl e

  secured :
      (singbox xray block : V) (o : StreamOptions) (b c skip : Bool)
      → Has laws singbox "tls" (if b then some block else none)
      → Checks skip block
      → j.get xray "streamSettings" ≡ some (xray_stream_settings o)
      → (o.tls || is_some o.reality) ≡ c
      → Secured b c skip singbox xray
  secured singbox xray block o b c skip h checks at same = record {
    tls = Checks-TlsOf b skip block (j.get singbox "tls") h.at checks;
    stream = xray_stream_settings o;
    at_stream = at;
    level = security o.reality o.tls;
    at_level = stream-security o;
    none_level = security_lem o.reality o.tls ∙ ap not same;
  }

  or_false : (b : Bool) → (b || false) ≡ b
  or_false true = refl
  or_false false = refl

  -- The sing-box projection of a Trojan, VMess or VLESS outbound has an enabled `tls` block when the
  -- outbound asks for TLS, which Trojan always does, and none otherwise; the block leaves
  -- certificates unchecked exactly when the outbound asks for that. The `security` of the xray
  -- projection is another than "none" exactly when the outbound asks for TLS or has REALITY options,
  -- so that the two differ for a VLESS outbound with such options and without TLS.
  pub projections-Secured :
      {Y : Type 0} (o : ProxyOutbound Y) (b c skip : Bool)
      → Tls o b c skip
      → Secured {V = V} b c skip (to_singbox_json o) (to_xray_json o)
  unfolding to_singbox_json to_xray_json trojan_to_singbox trojan_to_xray vmess_to_singbox
      vmess_to_xray vless_to_singbox vless_to_xray
  projections-Secured o b c skip (trojan_tls t) =
      secured _ _ _ (trojan_stream t) true true _
        (attach_transport-Has laws _ t.network t.ws_opts none t.grpc_opts "tls" _ refl
          (object-Has laws (trojan_fields t) "tls"))
        (tls_block-Checks t.sni (unwrap_or false t.skip_cert_verify) t.alpn)
        (laws.get_object _ "streamSettings") refl
  projections-Secured o b c skip (vmess_tls v) =
      secured _ _ _ (vmess_stream v) b c _
        (attach_transport-Has laws _ v.network v.ws_opts v.h2_opts v.grpc_opts "tls" _ refl
          (flagged (unwrap_or false v.tls) "tls" _ _ (object-Has laws (vmess_fields v) "tls")))
        (tls_block-Checks v.server_name (unwrap_or false v.skip_cert_verify) none)
        (laws.get_object _ "streamSettings") (or_false (unwrap_or false v.tls))
  projections-Secured o b c skip (vless_reality v) =
      secured _ _ _ (vless_stream v) b c _
        (attach_transport-Has laws _ v.network v.ws_opts v.h2_opts v.grpc_opts "tls" _ refl (
          flagged (unwrap_or false v.tls) "tls" _ _ (
            set_some-Has laws "flow" "tls" j.string v.flow _ _ refl
              (object-Has laws (vless_fields v) "tls"))))
        (vless_tls-Checks v) (laws.get_object _ "streamSettings") refl
