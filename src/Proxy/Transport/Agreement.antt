-- ===== src/Proxy/Transport/Agreement.antt =====
-- Both projections of an outbound have the same transport.
use pingling.Prelude.{◌≡◌, refl, Option, none, some}
use pingling.Proxy.{OutboundTrojan, OutboundVmess, OutboundVless, ProxyOutbound}
use pingling.Proxy.Json.{JsonValue, Laws}
use pingling.Proxy.Fields.{Has, object-Has, set_some-Has, set_if-Has, option_map}
use pingling.Proxy.SingBox.{
  to_singbox_json, trojan_to_singbox, trojan_fields, vmess_to_singbox, vmess_fields,
  vless_to_singbox, vless_fields,
}
use pingling.Proxy.Stream.{StreamOptions, xray_stream_settings}
use pingling.Proxy.Xray.{
  to_xray_json, trojan_to_xray, trojan_stream, vmess_to_xray, vmess_stream, vless_to_xray,
  vless_stream,
}
use pingling.Proxy.Transport.{
  tcp_lem, Transport, transport_of, transport_block, Agrees, Networked, trojan_net, vmess_net,
  vless_net,
}
use pingling.Proxy.Transport.Fields.{stream-Carried}
use pingling.Proxy.Transport.Settings.{attach_transport-Shows, stream-Shows}

module _ {V : Type 0} ⦃j : JsonValue V⦄ (laws : Laws j) where
  carried-Agrees :
      (singbox xray : V) (o : StreamOptions) (t : Option Transport)
      → j.get xray "streamSettings" ≡ some (xray_stream_settings o)
      → transport_of (some o.network) o.ws o.h2 o.grpc ≡ t
      → Has laws singbox "transport" (option_map transport_block t)
      → Agrees t singbox xray
  carried-Agrees singbox xray o t at same h = record {
    stream = xray_stream_settings o;
    at_stream = at;
    carried = stream-Carried laws o singbox t same (stream-Shows laws o singbox t same h);
  }

  trojan-Agrees :
      (t : OutboundTrojan)
      → Agrees {V = V}
          (transport_of t.network t.ws_opts none t.grpc_opts)
          (trojan_to_singbox t)
          (trojan_to_xray t)
  unfolding trojan_to_singbox trojan_to_xray
  trojan-Agrees t =
      carried-Agrees _ _ (trojan_stream t) _ (laws.get_object _ "streamSettings")
        (tcp_lem t.network t.ws_opts none t.grpc_opts)
        (attach_transport-Shows laws _ t.network t.ws_opts none t.grpc_opts
          (object-Has laws (trojan_fields t) "transport"))

  vmess-Agrees :
      (v : OutboundVmess)
      → Agrees {V = V}
          (transport_of v.network v.ws_opts v.h2_opts v.grpc_opts)
          (vmess_to_singbox v)
          (vmess_to_xray v)
  unfolding vmess_to_singbox vmess_to_xray
  vmess-Agrees v =
      carried-Agrees _ _ (vmess_stream v) _ (laws.get_object _ "streamSettings")
        (tcp_lem v.network v.ws_opts v.h2_opts v.grpc_opts)
        (attach_transport-Shows laws _ v.network v.ws_opts v.h2_opts v.grpc_opts (
          set_if-Has laws _ "tls" "transport" _ _ _ refl
            (object-Has laws (vmess_fields v) "transport")))

  vless-Agrees :
      (v : OutboundVless)
      → Agrees {V = V}
          (transport_of v.network v.ws_opts v.h2_opts v.grpc_opts)
          (vless_to_singbox v)
          (vless_to_xray v)
  unfolding vless_to_singbox vless_to_xray
  vless-Agrees v =
      carried-Agrees _ _ (vless_stream v) _ (laws.get_object _ "streamSettings")
        (tcp_lem v.network v.ws_opts v.h2_opts v.grpc_opts)
        (attach_transport-Shows laws _ v.network v.ws_opts v.h2_opts v.grpc_opts (
          set_if-Has laws _ "tls" "transport" _ _ _ refl (
            set_some-Has laws "flow" "transport" j.string v.flow _ _ refl
              (object-Has laws (vless_fields v) "transport"))))

  -- For a Trojan, VMess or VLESS outbound whose network is WebSocket, gRPC or HTTP and has options,
  -- both projections have that transport: sing-box in a `transport` block of that type, xray as its
  -- `network` and in the settings of that kind and of no other, with the same path and headers,
  -- service name, or path and hosts. Otherwise sing-box has no `transport` and xray no settings of
  -- any of these kinds.
  pub projections-Agrees :
      {Y : Type 0} (o : ProxyOutbound Y) (t : Option Transport)
      → Networked o t
      → Agrees {V = V} t (to_singbox_json o) (to_xray_json o)
  unfolding to_singbox_json to_xray_json
  projections-Agrees o t (trojan_net x) = trojan-Agrees x
  projections-Agrees o t (vmess_net x) = vmess-Agrees x
  projections-Agrees o t (vless_net x) = vless-Agrees x
