-- ===== src/Proxy/Transport/Settings.antt =====
-- What `attach_transport` and `xray_stream_settings` set for a transport.
use pingling.Prelude.{
  String, ◌≡◌, refl, ap, subst, ◌∙◌, List, [], ◌∷◌, Option, none, some, Bool, true, false, str_eq,
  ◌||◌, if◌then◌else◌,
}
use pingling.Proxy.{WsOpt, H2Opt, GrpcOpt}
use pingling.Proxy.Json.{JsonValue, Laws, lookup, set_some}
use pingling.Proxy.Fields.{Has, object-Has, set_some-Has, option_map, if_Has, set_other, set_same}
use pingling.Proxy.SingBox.{attach_transport, ws_transport, grpc_transport, http_transport}
use pingling.Proxy.Stream.{
  StreamOptions, network_normalised, security, set_security, set_network, xray_stream_settings,
  ws_settings, grpc_settings, http_settings, tls_settings, reality_settings,
}
use pingling.Proxy.Network.{is_ws, is_grpc, is_http}
use pingling.Proxy.Transport.{
  Transport, over_ws, over_grpc, over_http, transport_of, transport_block, ws_shown, grpc_shown,
  http_shown, Shows,
}

module _ {V : Type 0} ⦃j : JsonValue V⦄ (laws : Laws j) (q : String)
    (f : Option Transport → Option V) (f_none : f none ≡ none) where
  -- Both sides branch on the same test.
  if_Both :
      (b : Bool) (v w : V) (s t : Option Transport)
      → Has laws v q (f s)
      → Has laws w q (f t)
      → Has laws (if b then v else w) q (f (if b then s else t))
  if_Both true v w s t h k = h
  if_Both false v w s t h k = k

  -- The step that sets the key of this transport, and one that sets another's.
  own :
      {A : Type 0} (g : A → V) (c : A → Transport) (x : Option A) (out : V)
      → ((a : A) → f (some (c a)) ≡ some (g a))
      → Has laws out q none
      → Has laws (set_some q g x out) q (f (option_map c x))
  unfolding set_some
  own g c none out e h = rw f_none h
  own g c (some a) out e h = rw (e a) (set_same laws out (g a) q q none h)

  other :
      {A : Type 0} (k : String) (g : A → V) (c : A → Transport) (x : Option A) (out : V)
      → str_eq k q ≡ false
      → ((a : A) → f (some (c a)) ≡ none)
      → Has laws out q none
      → Has laws (set_some k g x out) q (f (option_map c x))
  other k g c none out d e h = rw f_none (set_some-Has laws k q g none out none d h)
  other k g c (some a) out d e h = rw (e a) (set_some-Has laws k q g (some a) out none d h)

  -- The three steps of the xray settings.
  set_network-Has :
      (o : StreamOptions) (out : V)
      → Has laws out q none
      → Has laws (set_some "wsSettings" ws_settings o.ws out) q (f (option_map over_ws o.ws))
      → Has laws
          (set_some "grpcSettings" grpc_settings o.grpc out)
          q
          (f (option_map over_grpc o.grpc))
      → Has laws (set_some "httpSettings" http_settings o.h2 out) q (f (option_map over_http o.h2))
      → Has laws (set_network o out) q (f (transport_of (some o.network) o.ws o.h2 o.grpc))
  unfolding set_network
  set_network-Has o out h a b c =
      rw (is_ws o.network, is_grpc o.network, is_http o.network)
        (if_Both _ _ _ _ _ a (if_Both _ _ _ _ _ b (if_Both _ _ out _ none c (rw f_none h))))

module _ {V : Type 0} ⦃j : JsonValue V⦄ (laws : Laws j) where
  pub attach_transport-Shows :
      (out : V) (network : Option String) (ws : Option WsOpt) (h2 : Option H2Opt)
      (grpc : Option GrpcOpt)
      → Has laws out "transport" none
      → Has laws
          (attach_transport out network ws h2 grpc)
          "transport"
          (option_map transport_block (transport_of network ws h2 grpc))
  unfolding attach_transport
  attach_transport-Shows out none ws h2 grpc h = h
  attach_transport-Shows out (some n) ws h2 grpc h =
      let f = option_map transport_block in
      if_Both laws "transport" f refl (str_eq n "ws" || str_eq n "websocket") _ _ _ _
        (own laws "transport" f refl ws_transport over_ws ws out (λ a. refl) h)
        (if_Both laws "transport" f refl (str_eq n "grpc") _ _ _ _
          (own laws "transport" f refl grpc_transport over_grpc grpc out (λ a. refl) h)
          (if_Both laws "transport" f refl (str_eq n "h2" || str_eq n "http" || str_eq n "http2") _
            _ _ _ (own laws "transport" f refl http_transport over_http h2 out (λ a. refl) h) h))

  set_security-Has :
      (o : StreamOptions) (out : V) (q : String)
      → str_eq "tlsSettings" q ≡ false
      → str_eq "realitySettings" q ≡ false
      → Has laws out q none
      → Has laws (set_security o out) q none
  unfolding set_security
  set_security-Has o out q d e h =
      if_Has laws (str_eq (security o.reality o.tls) "tls") _ _
        (set_other laws out (tls_settings o) "tlsSettings" q none d h)
        (if_Has laws (str_eq (security o.reality o.tls) "reality") _ _
          (set_some-Has laws "realitySettings" q (reality_settings o) o.reality out none e h) h)

  -- The first object of the stream settings.
  abbrev first_fields : StreamOptions → List (String × V)
  first_fields o =
      ("network", j.string (network_normalised o.network))
      ∷ ("security", j.string (security o.reality o.tls))
      ∷ []

  secured-Has :
      (o : StreamOptions) (q : String)
      → str_eq "tlsSettings" q ≡ false
      → str_eq "realitySettings" q ≡ false
      → lookup q (first_fields o) ≡ none
      → Has laws (set_security o (j.object (first_fields o))) q none
  secured-Has o q d e h =
      set_security-Has o _ q d e (
        subst (λ x. Has laws (j.object (first_fields o)) q x) h
          (object-Has laws (first_fields o) q))

  pub stream-Shows :
      (o : StreamOptions) (singbox : V) (t : Option Transport)
      → transport_of (some o.network) o.ws o.h2 o.grpc ≡ t
      → Has laws singbox "transport" (option_map transport_block t)
      → Shows t singbox (xray_stream_settings o)
  unfolding xray_stream_settings
  stream-Shows o singbox t same h =
      let secured = set_security o (j.object (first_fields o)) in
      let ws_none = secured-Has o "wsSettings" refl refl refl in
      let grpc_none = secured-Has o "grpcSettings" refl refl refl in
      let http_none = secured-Has o "httpSettings" refl refl refl in
      record {
        transport = h.at;
        ws =
            (set_network-Has laws "wsSettings" ws_shown refl o secured ws_none
              (own laws "wsSettings" ws_shown refl ws_settings over_ws o.ws secured (λ a. refl)
                ws_none)
              (other laws "wsSettings" ws_shown refl "grpcSettings" grpc_settings over_grpc o.grpc
                secured refl (λ a. refl) ws_none)
              (other laws "wsSettings" ws_shown refl "httpSettings" http_settings over_http o.h2
                secured refl (λ a. refl) ws_none)).at
            ∙ ap ws_shown same;
        grpc =
            (set_network-Has laws "grpcSettings" grpc_shown refl o secured grpc_none
              (other laws "grpcSettings" grpc_shown refl "wsSettings" ws_settings over_ws o.ws
                secured refl (λ a. refl) grpc_none)
              (own laws "grpcSettings" grpc_shown refl grpc_settings over_grpc o.grpc secured
                (λ a. refl) grpc_none)
              (other laws "grpcSettings" grpc_shown refl "httpSettings" http_settings over_http o.h2
                secured refl (λ a. refl) grpc_none)).at
            ∙ ap grpc_shown same;
        http =
            (set_network-Has laws "httpSettings" http_shown refl o secured http_none
              (other laws "httpSettings" http_shown refl "wsSettings" ws_settings over_ws o.ws
                secured refl (λ a. refl) http_none)
              (other laws "httpSettings" http_shown refl "grpcSettings" grpc_settings over_grpc
                o.grpc secured refl (λ a. refl) http_none)
              (own laws "httpSettings" http_shown refl http_settings over_http o.h2 secured
                (λ a. refl) http_none)).at
            ∙ ap http_shown same;
      }
