-- ===== src/Domain/Outbound/Names.antt =====
-- Printing and parsing of protocols and transports.
use pingling.Prelude.{String, ◌≡◌, refl, Bool, true, false, str_eq, if◌then◌else◌, ◌||◌}
use pingling.Domain.Outbound.{
  OutboundProtocol, protocol_str, protocol_from_str, OutboundTransport, transport_str,
  transport_from_str, vless, vmess, trojan, shadowsocks, wireguard, hysteria, hysteria2, tuic,
  direct, selector, url_test, tcp, udp, http, web_socket, quic, grpc,
}

-- What holds of both branches of a test holds of the test.
if_cases :
    {A : Type 0} (P : A → Type 0) (b : Bool) (x y : A)
    → P x
    → (b ≡ false → P y)
    → P (if b then x else y)
if_cases P true x y h k = h
if_cases P false x y h k = k refl

record Again (p : OutboundProtocol) : Type 0 where
  again : protocol_from_str (protocol_str p) ≡ p

from_str-Again : (s : String) → Again (protocol_from_str s)
unfolding protocol_from_str protocol_str
from_str-Again s =
    if_cases Again (str_eq s "vless") vless _ (record { again = refl })
      λ e1.
        if_cases Again (str_eq s "vmess") vmess _ (record { again = refl })
          λ e2.
            if_cases Again (str_eq s "trojan") trojan _ (record { again = refl })
              λ e3.
                if_cases Again (str_eq s "shadowsocks" || str_eq s "ss") shadowsocks _
                  (record { again = refl })
                  λ e4.
                    if_cases Again (str_eq s "wireguard" || str_eq s "wg") wireguard _
                      (record { again = refl })
                      λ e5.
                        if_cases Again (str_eq s "hysteria") hysteria _ (record { again = refl })
                          λ e6.
                            if_cases Again (str_eq s "hysteria2") hysteria2 _
                              (record { again = refl })
                              λ e7.
                                if_cases Again (str_eq s "tuic") tuic _ (record { again = refl })
                                  λ e8.
                                    if_cases Again (str_eq s "direct") direct _
                                      (record { again = refl })
                                      λ e9.
                                        if_cases Again (str_eq s "selector") selector _
                                          (record { again = refl })
                                          λ e10.
                                            if_cases Again (str_eq s "urltest") url_test _
                                              (record { again = refl })
                                              λ e11. record {
                                                again =
                                                    rw
                                                      (
                                                        e1, e2, e3, e4, e5, e6, e7, e8, e9, e10,
                                                        e11, protocol_from_str,
                                                      )
                                                      refl;
                                              }

-- A protocol that was parsed from a text is parsed again from what it prints, also when the text
-- was an alias or no known name.
pub protocol_from_str_again :
    (s : String) → protocol_from_str (protocol_str (protocol_from_str s)) ≡ protocol_from_str s
protocol_from_str_again s = (from_str-Again s).again

record AgainTransport (t : OutboundTransport) : Type 0 where
  again : transport_from_str (transport_str t) ≡ t

transport_from_str-Again : (s : String) → AgainTransport (transport_from_str s)
unfolding transport_from_str transport_str
transport_from_str-Again s =
    if_cases AgainTransport (str_eq s "tcp") tcp _ (record { again = refl })
      λ e1.
        if_cases AgainTransport (str_eq s "udp") udp _ (record { again = refl })
          λ e2.
            if_cases AgainTransport (str_eq s "http" || str_eq s "h2" || str_eq s "http2") http _
              (record { again = refl })
              λ e3.
                if_cases AgainTransport (str_eq s "ws" || str_eq s "websocket") web_socket _
                  (record { again = refl })
                  λ e4.
                    if_cases AgainTransport (str_eq s "quic") quic _ (record { again = refl })
                      λ e5.
                        if_cases AgainTransport (str_eq s "grpc") grpc _ (record { again = refl })
                          λ e6. record { again = refl }

-- So is a transport, where all unknown names are one.
pub transport_from_str_again :
    (s : String) → transport_from_str (transport_str (transport_from_str s)) ≡ transport_from_str s
transport_from_str_again s = (transport_from_str-Again s).again
