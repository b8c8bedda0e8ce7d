-- ===== src/Proxy/Transport/Fields.antt =====
-- The fields of the blocks and settings that show a transport.
use pingling.Prelude.{
  String, ◌≡◌, refl, ap, ◌∙◌, [], ◌∷◌, Option, none, some, false, str_eq, eq_iff, ◌||◌, inl, inr,
  arith, Bool-cases, Option-cases,
}
use pingling.Proxy.{WsOpt, H2Opt, GrpcOpt}
use pingling.Proxy.Json.{JsonValue, Laws, set_some, string_map, strings, unwrap_or}
use pingling.Proxy.Fields.{Has, object-Has, set_some-Has, set_some-New, if_Has, set_other}
use pingling.Proxy.SingBox.{ws_transport, grpc_transport, http_transport}
use pingling.Proxy.Stream.{
  StreamOptions, network_normalised, security, set_security, set_network, xray_stream_settings,
  ws_settings, grpc_settings, http_settings, tls_settings, reality_settings,
}
use pingling.Proxy.Network.{is_ws, is_grpc, is_http}
use pingling.Proxy.Transport.{
  Transport, over_ws, over_grpc, over_http, transport_of, kind, Shows, Carried, as_it_is, by_ws,
  by_grpc, by_http,
}

-- The name of the network of xray is that of the transport.
network_normalised-kind :
    (n : String) (ws : Option WsOpt) (h2 : Option H2Opt) (grpc : Option GrpcOpt) (t : Transport)
    → transport_of (some n) ws h2 grpc ≡ some t
    → network_normalised n ≡ kind t
network_normalised-kind n ws h2 grpc t h =
    elim (Bool-cases (str_eq n "ws" || str_eq n "websocket")) [
      | inl a ↦
          let name = (eq_iff (network_normalised n) "ws").0 (is_ws n ∙ a) in
          elim (Option-cases ws) [
            | inl q ↦ absurd (ground (arith, a, q, h))
            | inr (w, q) ↦ let same : over_ws w ≡ t = ground (arith, a, q, h) in name ∙ ap kind same
          ]
      | inr a ↦ elim (Bool-cases (str_eq n "grpc")) [
        | inl b ↦
            let name = (eq_iff (network_normalised n) "grpc").0 (is_grpc n ∙ b) in
            elim (Option-cases grpc) [
              | inl q ↦ absurd (ground (arith, a, b, q, h))
              | inr (g, q) ↦
                  let same : over_grpc g ≡ t = ground (arith, a, b, q, h) in name ∙ ap kind same
            ]
        | inr b ↦ elim (Bool-cases (str_eq n "h2" || str_eq n "http" || str_eq n "http2")) [
          | inr c ↦ absurd (ground (arith, a, b, c, h))
          | inl c ↦
              let name = (eq_iff (network_normalised n) "http").0 (is_http n ∙ c) in
              elim (Option-cases h2) [
                | inl q ↦ absurd (ground (arith, a, b, c, q, h))
                | inr (x, q) ↦
                    let same : over_http x ≡ t = ground (arith, a, b, c, q, h) in
                    name ∙ ap kind same
              ]
        ]
      ]
    ]

module _ {V : Type 0} ⦃j : JsonValue V⦄ (laws : Laws j) where
  -- The later steps leave the name of the network.
  set_network-network :
      (o : StreamOptions) (out : V) (x : Option V)
      → Has laws out "network" x
      → Has laws (set_network o out) "network" x
  unfolding set_network
  set_network-network o out x h =
      let n = network_normalised o.network in
      if_Has laws (str_eq n "ws") _ _
        (set_some-Has laws "wsSettings" "network" ws_settings o.ws out x refl h)
        (if_Has laws (str_eq n "grpc") _ _
          (set_some-Has laws "grpcSettings" "network" grpc_settings o.grpc out x refl h)
          (if_Has laws (str_eq n "http") _ _
            (set_some-Has laws "httpSettings" "network" http_settings o.h2 out x refl h) h))

  set_security-network :
      (o : StreamOptions) (out : V) (x : Option V)
      → Has laws out "network" x
      → Has laws (set_security o out) "network" x
  unfolding set_security
  set_security-network o out x h =
      if_Has laws (str_eq (security o.reality o.tls) "tls") _ _
        (set_other laws out (tls_settings o) "tlsSettings" "network" x refl h)
        (if_Has laws (str_eq (security o.reality o.tls) "reality") _ _
          (set_some-Has laws "realitySettings" "network" (reality_settings o) o.reality out x refl
            h)
          h)

  stream-network :
      (o : StreamOptions)
      → j.get (xray_stream_settings o) "network" ≡ some (j.string (network_normalised o.network))
  unfolding xray_stream_settings
  stream-network o =
      (set_network-network o _ _ (
        set_security-network o _ _ (
          object-Has laws
            (("network", j.string (network_normalised o.network))
              ∷ ("security", j.string (security o.reality o.tls))
              ∷ [])
            "network"))).at

  -- What the block of a WebSocket has before its last two steps.
  ws_transport-Has :
      (ws : WsOpt) (q : String) (x : Option V)
      → str_eq "max_early_data" q ≡ false
      → str_eq "early_data_header_name" q ≡ false
      → Has laws
          (set_some "headers" string_map ws.headers
            (set_some "path" j.string ws.path (j.object (("type", j.string "ws") ∷ []))))
          q
          x
      → Has laws (ws_transport ws) q x
  unfolding ws_transport
  ws_transport-Has ws q x a b h =
      set_some-Has laws "early_data_header_name" q j.string ws.early_data_header_name _ x b
        (set_some-Has laws "max_early_data" q j.number ws.max_early_data _ x a h)

  Shows-Carried :
      (o : StreamOptions) (singbox : V) (t : Option Transport)
      → ((x : Transport) → t ≡ some x → network_normalised o.network ≡ kind x)
      → Shows t singbox (xray_stream_settings o)
      → Carried singbox (xray_stream_settings o) t
  unfolding ws_transport grpc_transport http_transport ws_settings grpc_settings http_settings
  Shows-Carried o singbox none name s = as_it_is s.transport s.ws s.grpc s.http
  Shows-Carried o singbox (some (over_ws ws)) name s =
      let block = j.object (("type", j.string "ws") ∷ []) in
      let path =
        set_some-New laws "path" j.string ws.path block
          (object-Has laws (("type", j.string "ws") ∷ []) "path") in
      let headers = set_some-New laws "headers" string_map ws.headers _ (
        set_some-Has laws "path" "headers" j.string ws.path block none refl
          (object-Has laws (("type", j.string "ws") ∷ []) "headers")) in
      by_ws ws (ws_transport ws) (ws_settings ws) s.transport
        (ws_transport-Has ws "type" _ refl refl (
          set_some-Has laws "headers" "type" string_map ws.headers _ _ refl (
            set_some-Has laws "path" "type" j.string ws.path _ _ refl
              (object-Has laws (("type", j.string "ws") ∷ []) "type")))).at
        (ws_transport-Has ws "path" _ refl refl
          (set_some-Has laws "headers" "path" string_map ws.headers _ _ refl path)).at
        (ws_transport-Has ws "headers" _ refl refl headers).at
        (stream-network o ∙ ap (λ k. some (j.string k)) (name (over_ws ws) refl)) s.ws
        (set_some-Has laws "headers" "path" string_map ws.headers _ _ refl
          (set_some-New laws "path" j.string ws.path (j.object []) (object-Has laws [] "path"))).at
        (set_some-New laws "headers" string_map ws.headers _ (
          set_some-Has laws "path" "headers" j.string ws.path (j.object []) none refl
            (object-Has laws [] "headers"))).at
        s.grpc s.http
  Shows-Carried o singbox (some (over_grpc g)) name s =
      let service = j.string (unwrap_or "" g.grpc_service_name) in
      by_grpc g (grpc_transport g) (grpc_settings g) s.transport
        (object-Has laws (("type", j.string "grpc") ∷ ("service_name", service) ∷ []) "type").at
        (object-Has laws (("type", j.string "grpc") ∷ ("service_name", service) ∷ [])
          "service_name").at
        (stream-network o ∙ ap (λ k. some (j.string k)) (name (over_grpc g) refl)) s.grpc
        (object-Has laws (("serviceName", service) ∷ []) "serviceName").at s.ws s.http
  Shows-Carried o singbox (some (over_http h)) name s =
      let block = j.object (("type", j.string "http") ∷ []) in
      by_http h (http_transport h) (http_settings h) s.transport
        (set_some-Has laws "path" "type" j.string h.path _ _ refl (
          set_some-Has laws "host" "type" strings h.host block _ refl
            (object-Has laws (("type", j.string "http") ∷ []) "type"))).at
        (set_some-New laws "path" j.string h.path _ (
          set_some-Has laws "host" "path" strings h.host block none refl
            (object-Has laws (("type", j.string "http") ∷ []) "path"))).at
        (set_some-Has laws "path" "host" j.string h.path _ _ refl (
          set_some-New laws "host" strings h.host block
            (object-Has laws (("type", j.string "http") ∷ []) "host"))).at
        (stream-network o ∙ ap (λ k. some (j.string k)) (name (over_http h) refl)) s.http
        (set_some-New laws "path" j.string h.path _ (
          set_some-Has laws "host" "path" strings h.host (j.object []) none refl
            (object-Has laws [] "path"))).at
        (set_some-Has laws "path" "host" j.string h.path _ _ refl
          (set_some-New laws "host" strings h.host (j.object []) (object-Has laws [] "host"))).at
        s.ws s.grpc

  pub stream-Carried :
      (o : StreamOptions) (singbox : V) (t : Option Transport)
      → transport_of (some o.network) o.ws o.h2 o.grpc ≡ t
      → Shows t singbox (xray_stream_settings o)
      → Carried singbox (xray_stream_settings o) t
  stream-Carried o singbox t same s =
      Shows-Carried o singbox t
        (λ x e. network_normalised-kind o.network o.ws o.h2 o.grpc x (same ∙ e)) s
