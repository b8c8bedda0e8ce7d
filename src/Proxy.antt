-- ===== src/Proxy.antt =====
-- The outbounds of crates/shared/proxy-dto/src/lib.rs. A `u16`, `u64` or `u8` is a number; a
-- `HashMap<String, String>` is the list of its entries; `Y` is `serde_yaml::Value`.
pub mod Json
pub mod Fields
pub mod SingBox
pub mod Stream
pub mod Network
pub mod Xray
pub mod Endpoint
pub mod Transport
pub mod Security
use pingling.Prelude.{ℕ, String, List, Option, Bool}
use pingling.Prelude.Int.{ℤ}

pub record CommonOptions : Type 0 where
  pub name : String
  pub server : String
  pub port : ℕ
  pub connect_via : Option String

pub record WsOpt : Type 0 where
  pub path : Option String
  pub headers : Option (List (String × String))
  pub max_early_data : Option ℤ
  pub early_data_header_name : Option String

pub record H2Opt : Type 0 where
  pub host : Option (List String)
  pub path : Option String

pub record GrpcOpt : Type 0 where
  pub grpc_service_name : Option String

pub record RealityOpt : Type 0 where
  pub public_key : String
  pub short_id : String

pub record OutboundDirect : Type 0 where
  pub name : String

pub record OutboundReject : Type 0 where
  pub name : String

pub record OutboundShadowsocks (Y : Type 0) : Type 0 where
  pub common_opts : CommonOptions
  pub cipher : String
  pub password : String
  pub udp : Bool
  pub plugin : Option String
  pub plugin_opts : Option (List (String × Y))

pub record OutboundSocks5 : Type 0 where
  pub common_opts : CommonOptions
  pub username : Option String
  pub password : Option String
  pub tls : Bool
  pub sni : Option String
  pub skip_cert_verify : Bool
  pub udp : Bool

pub record OutboundTrojan : Type 0 where
  pub common_opts : CommonOptions
  pub password : String
  pub alpn : Option (List String)
  pub sni : Option String
  pub skip_cert_verify : Option Bool
  pub udp : Option Bool
  pub network : Option String
  pub grpc_opts : Option GrpcOpt
  pub ws_opts : Option WsOpt

pub record OutboundVmess : Type 0 where
  pub common_opts : CommonOptions
  pub uuid : String
  pub alter_id : ℕ
  pub cipher : Option String
  pub udp : Option Bool
  pub tls : Option Bool
  pub skip_cert_verify : Option Bool
  pub server_name : Option String
  pub network : Option String
  pub ws_opts : Option WsOpt
  pub h2_opts : Option H2Opt
  pub grpc_opts : Option GrpcOpt

pub record OutboundVless : Type 0 where
  pub common_opts : CommonOptions
  pub uuid : String
  pub udp : Option Bool
  pub tls : Option Bool
  pub skip_cert_verify : Option Bool
  pub server_name : Option String
  pub network : Option String
  pub ws_opts : Option WsOpt
  pub h2_opts : Option H2Opt
  pub grpc_opts : Option GrpcOpt
  pub reality_opts : Option RealityOpt
  pub flow : Option String
  pub client_fingerprint : Option String

pub record OutboundWireguard : Type 0 where
  pub common_opts : CommonOptions
  pub private_key : String
  pub public_key : String
  pub pre_shared_key : Option String
  pub mtu : Option ℕ
  pub udp : Option Bool
  pub ip : String
  pub ipv6 : Option String
  pub remote_dns_resolve : Option Bool
  pub dns : Option (List String)
  pub allowed_ips : Option (List String)
  pub reserved_bits : Option (List ℕ)

pub record OutboundTuic : Type 0 where
  pub common_opts : CommonOptions
  pub uuid : String
  pub password : String
  pub ip : Option String
  pub heartbeat_interval : Option ℕ
  pub alpn : Option (List String)
  pub disable_sni : Option Bool
  pub reduce_rtt : Option Bool
  pub request_timeout : Option ℕ
  pub udp_relay_mode : Option String
  pub congestion_controller : Option String
  pub max_udp_relay_packet_size : Option ℕ
  pub fast_open : Option Bool
  pub skip_cert_verify : Option Bool
  pub max_open_stream : Option ℕ
  pub sni : Option String

pub data Hysteria2Obfs : Type 0 where
  salamander : Hysteria2Obfs

pub record OutboundHysteria2 : Type 0 where
  pub name : String
  pub server : String
  pub port : ℕ
  pub ports : Option String
  pub password : String
  pub obfs : Option Hysteria2Obfs
  pub obfs_password : Option String
  pub alpn : Option (List String)
  pub up : Option ℕ
  pub down : Option ℕ
  pub sni : Option String
  pub skip_cert_verify : Bool
  pub ca : Option String
  pub ca_str : Option String
  pub fingerprint : Option String

pub data ProxyOutbound (Y : Type 0) : Type 0 where
  direct : OutboundDirect → ProxyOutbound Y
  reject : OutboundReject → ProxyOutbound Y
  ss : OutboundShadowsocks Y → ProxyOutbound Y
  socks5 : OutboundSocks5 → ProxyOutbound Y
  trojan : OutboundTrojan → ProxyOutbound Y
  vmess : OutboundVmess → ProxyOutbound Y
  vless : OutboundVless → ProxyOutbound Y
  wireguard : OutboundWireguard → ProxyOutbound Y
  tuic : OutboundTuic → ProxyOutbound Y
  hysteria2 : OutboundHysteria2 → ProxyOutbound Y

module _ {Y : Type 0} where
  unfoldable pub name : ProxyOutbound Y → String
  name (direct x) = x.name
  name (reject x) = x.name
  name (ss x) = x.common_opts.name
  name (socks5 x) = x.common_opts.name
  name (trojan x) = x.common_opts.name
  name (vmess x) = x.common_opts.name
  name (vless x) = x.common_opts.name
  name (wireguard x) = x.common_opts.name
  name (tuic x) = x.common_opts.name
  name (hysteria2 x) = x.name

  unfoldable pub type_tag : ProxyOutbound Y → String
  type_tag (direct x) = "direct"
  type_tag (reject x) = "reject"
  type_tag (ss x) = "ss"
  type_tag (socks5 x) = "socks5"
  type_tag (trojan x) = "trojan"
  type_tag (vmess x) = "vmess"
  type_tag (vless x) = "vless"
  type_tag (wireguard x) = "wireguard"
  type_tag (tuic x) = "tuic"
  type_tag (hysteria2 x) = "hysteria2"
