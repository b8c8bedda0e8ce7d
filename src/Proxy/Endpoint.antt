-- ===== src/Proxy/Endpoint.antt =====
-- The name and the server of an outbound in its projections.
use pingling.Prelude.{
  ℕ, String, ◌≡◌, refl, List, [], ◌∷◌, Option, none, some, true, false, not, all, All, ◌∙◌, str_eq,
  arith,
}
use pingling.Proxy.{
  ProxyOutbound, direct, reject, ss, socks5, trojan, vmess, vless, wireguard, tuic, hysteria2, name,
  OutboundTrojan, OutboundVmess, OutboundVless, OutboundWireguard, OutboundTuic, OutboundHysteria2,
}
use pingling.Proxy.Json.{JsonValue, Laws, lookup, nat}
use pingling.Proxy.Fields.{
  Has, object-Has, set_some-Has, set_if-Has, attach_transport-Has, option_map,
}
use pingling.Proxy.SingBox.{
  to_singbox_json, shadowsocks_to_singbox, trojan_to_singbox, trojan_fields, vmess_to_singbox,
  vmess_fields, vless_to_singbox, vless_fields, wireguard_to_singbox, wireguard_fields,
  tuic_to_singbox, tuic_fields, hysteria2_to_singbox, hysteria2_fields, named, shadowsocks_fields,
  socks5_fields,
}
use pingling.Proxy.Xray.{
  to_xray_json, shadowsocks_to_xray, trojan_to_xray, vmess_to_xray, vless_to_xray, unsupported,
}

-- The keys that are set after the object is made.
abbrev optional_keys : List String
optional_keys =
    "transport" ∷ "tls" ∷ "flow" ∷ "pre_shared_key" ∷ "mtu" ∷ "reserved" ∷ "congestion_control"
    ∷ "udp_relay_mode" ∷ "zero_rtt_handshake" ∷ "obfs" ∷ "up_mbps" ∷ "down_mbps" ∷ "server_ports"
    ∷ []

-- A key that none of them is.
abbrev pub IsBasic : String → Type 0
IsBasic q = All (λ k. str_eq k q ≡ false) optional_keys

All-of_all :
    (q : String) (ks : List String)
    → all (λ k. not (str_eq k q)) ks ≡ true
    → All (λ k. str_eq k q ≡ false) ks
All-of_all q [] h = tt
All-of_all q (k ∷ ks) h = (ground (arith, h), All-of_all q ks (ground (arith, h)))

module _ {V : Type 0} ⦃j : JsonValue V⦄ (laws : Laws j) (q : String) (basic : IsBasic q) where
  trojan-Has : (t : OutboundTrojan) → Has laws (trojan_to_singbox t) q (lookup q (trojan_fields t))
  unfolding trojan_to_singbox
  trojan-Has t =
      attach_transport-Has laws _ t.network t.ws_opts none t.grpc_opts q _ basic.0
        (object-Has laws (trojan_fields t) q)

  vmess-Has : (v : OutboundVmess) → Has laws (vmess_to_singbox v) q (lookup q (vmess_fields v))
  unfolding vmess_to_singbox
  vmess-Has v =
      attach_transport-Has laws _ v.network v.ws_opts v.h2_opts v.grpc_opts q _ basic.0
        (set_if-Has laws _ "tls" q _ _ _ basic.1.0 (object-Has laws (vmess_fields v) q))

  vless-Has : (v : OutboundVless) → Has laws (vless_to_singbox v) q (lookup q (vless_fields v))
  unfolding vless_to_singbox
  vless-Has v = attach_transport-Has laws _ v.network v.ws_opts v.h2_opts v.grpc_opts q _ basic.0 (
      set_if-Has laws _ "tls" q _ _ _ basic.1.0 (
        set_some-Has laws "flow" q j.string v.flow _ _ basic.1.1.0
          (object-Has laws (vless_fields v) q)))

  wireguard-Has :
      (w : OutboundWireguard) → Has laws (wireguard_to_singbox w) q (lookup q (wireguard_fields w))
  unfolding wireguard_to_singbox
  wireguard-Has w = set_some-Has laws "reserved" q _ w.reserved_bits _ _ basic.1.1.1.1.1.0 (
      set_some-Has laws "mtu" q nat w.mtu _ _ basic.1.1.1.1.0 (
        set_some-Has laws "pre_shared_key" q j.string w.pre_shared_key _ _ basic.1.1.1.0
          (object-Has laws (wireguard_fields w) q)))

  tuic-Has : (t : OutboundTuic) → Has laws (tuic_to_singbox t) q (lookup q (tuic_fields t))
  unfolding tuic_to_singbox
  tuic-Has t = set_if-Has laws _ "zero_rtt_handshake" q _ _ _ basic.1.1.1.1.1.1.1.1.0 (
      set_some-Has laws "udp_relay_mode" q j.string t.udp_relay_mode _ _ basic.1.1.1.1.1.1.1.0 (
        set_some-Has laws "congestion_control" q j.string t.congestion_controller _ _
          basic.1.1.1.1.1.1.0 (object-Has laws (tuic_fields t) q)))

  hysteria2-Has :
      (h : OutboundHysteria2) → Has laws (hysteria2_to_singbox h) q (lookup q (hysteria2_fields h))
  unfolding hysteria2_to_singbox
  hysteria2-Has h =
      set_some-Has laws "server_ports" q j.string h.ports _ _ basic.1.1.1.1.1.1.1.1.1.1.1.1.0 (
        set_some-Has laws "down_mbps" q _ h.down _ _ basic.1.1.1.1.1.1.1.1.1.1.1.0 (
          set_some-Has laws "up_mbps" q _ h.up _ _ basic.1.1.1.1.1.1.1.1.1.1.0 (
            set_some-Has laws "obfs" q _ h.obfs _ _ basic.1.1.1.1.1.1.1.1.1.0
              (object-Has laws (hysteria2_fields h) q))))

-- The server of an outbound, if it has one.
abbrev pub server_of : {Y : Type 0} → ProxyOutbound Y → Option (String × ℕ)
server_of (direct x) = none
server_of (reject x) = none
server_of (ss x) = some (x.common_opts.server, x.common_opts.port)
server_of (socks5 x) = some (x.common_opts.server, x.common_opts.port)
server_of (trojan x) = some (x.common_opts.server, x.common_opts.port)
server_of (vmess x) = some (x.common_opts.server, x.common_opts.port)
server_of (vless x) = some (x.common_opts.server, x.common_opts.port)
server_of (wireguard x) = some (x.common_opts.server, x.common_opts.port)
server_of (tuic x) = some (x.common_opts.server, x.common_opts.port)
server_of (hysteria2 x) = some (x.server, x.port)

module _ {V : Type 0} ⦃j : JsonValue V⦄ (laws : Laws j) where
  -- The three fields of an object for sing-box.
  record Three (v : V) (tag : String) (end : Option (String × ℕ)) : Type 0 where
    at_tag : j.get v "tag" ≡ some (j.string tag)
    at_server : j.get v "server" ≡ option_map (λ e. j.string e.0) end
    at_port : j.get v "server_port" ≡ option_map (λ e. nat e.1) end

  three :
      (v : V) (fields : List (String × V)) (tag : String) (end : Option (String × ℕ))
      → ((q : String) → IsBasic q → Has laws v q (lookup q fields))
      → lookup "tag" fields ≡ some (j.string tag)
      → lookup "server" fields ≡ option_map (λ e. j.string e.0) end
      → lookup "server_port" fields ≡ option_map (λ e. nat e.1) end
      → Three v tag end
  three v fields tag end h a b c = record {
    at_tag = (h "tag" (All-of_all "tag" optional_keys refl)).at ∙ a;
    at_server = (h "server" (All-of_all "server" optional_keys refl)).at ∙ b;
    at_port = (h "server_port" (All-of_all "server_port" optional_keys refl)).at ∙ c;
  }

module _ {V Y : Type 0} ⦃j : JsonValue V⦄ (laws : Laws j) where
  -- What the two projections of an outbound have in common with it.
  pub record Endpoint (o : ProxyOutbound Y) : Type 0 where
    pub singbox_tag : j.get (to_singbox_json o) "tag" ≡ some (j.string (name o))
    pub xray_tag : j.get (to_xray_json o) "tag" ≡ some (j.string (name o))
    pub server : j.get (to_singbox_json o) "server" ≡ option_map (λ e. j.string e.0) (server_of o)
    pub server_port :
        j.get (to_singbox_json o) "server_port" ≡ option_map (λ e. nat e.1) (server_of o)

  singbox-Three : (o : ProxyOutbound Y) → Three laws (to_singbox_json o) (name o) (server_of o)
  unfolding to_singbox_json name shadowsocks_to_singbox
  singbox-Three (direct x) =
      three laws _ (named "direct" x.name) _ _ (λ q b. object-Has laws _ q) refl refl refl
  singbox-Three (reject x) =
      three laws _ (named "block" x.name) _ _ (λ q b. object-Has laws _ q) refl refl refl
  singbox-Three (ss x) =
      three laws _ (shadowsocks_fields x) _ _ (λ q b. object-Has laws _ q) refl refl refl
  singbox-Three (socks5 x) =
      three laws _ (socks5_fields x) _ _ (λ q b. object-Has laws _ q) refl refl refl
  singbox-Three (trojan x) =
      three laws _ (trojan_fields x) _ _ (λ q b. trojan-Has laws q b x) refl refl refl
  singbox-Three (vmess x) =
      three laws _ (vmess_fields x) _ _ (λ q b. vmess-Has laws q b x) refl refl refl
  singbox-Three (vless x) =
      three laws _ (vless_fields x) _ _ (λ q b. vless-Has laws q b x) refl refl refl
  singbox-Three (wireguard x) =
      three laws _ (wireguard_fields x) _ _ (λ q b. wireguard-Has laws q b x) refl refl refl
  singbox-Three (tuic x) =
      three laws _ (tuic_fields x) _ _ (λ q b. tuic-Has laws q b x) refl refl refl
  singbox-Three (hysteria2 x) =
      three laws _ (hysteria2_fields x) _ _ (λ q b. hysteria2-Has laws q b x) refl refl refl

  xray-tag : (o : ProxyOutbound Y) → j.get (to_xray_json o) "tag" ≡ some (j.string (name o))
  unfolding to_xray_json name shadowsocks_to_xray trojan_to_xray vmess_to_xray vless_to_xray
      unsupported
  xray-tag (direct x) = laws.get_object _ "tag"
  xray-tag (reject x) = laws.get_object _ "tag"
  xray-tag (ss x) = laws.get_object _ "tag"
  xray-tag (socks5 x) = laws.get_object _ "tag"
  xray-tag (trojan x) = laws.get_object _ "tag"
  xray-tag (vmess x) = laws.get_object _ "tag"
  xray-tag (vless x) = laws.get_object _ "tag"
  xray-tag (wireguard x) = laws.get_object _ "tag"
  xray-tag (tuic x) = laws.get_object _ "tag"
  xray-tag (hysteria2 x) = laws.get_object _ "tag"

  -- Whatever the outbound and its options, both projections have its name as their tag, and that
  -- for sing-box has its server and port, or neither where the outbound has no server.
  pub projections-Endpoint : (o : ProxyOutbound Y) → Endpoint o
  projections-Endpoint o = record {
    singbox_tag = (singbox-Three o).at_tag;
    xray_tag = xray-tag o;
    server = (singbox-Three o).at_server;
    server_port = (singbox-Three o).at_port;
  }
