-- ===== src/Proxy/Network.antt =====
-- Which networks `xray_stream_settings` takes for WebSocket, gRPC and HTTP.
use pingling.Prelude.{
  String, ◌≡◌, refl, ap, ◌∙◌, Bool, true, false, str_eq, eq_iff, Bool-cases, inl, inr, ◌||◌,
}
use pingling.Proxy.Stream.{network_normalised}

-- The names that are normalised, and all others.
data Normal (n : String) : Type 0 where
  was_websocket : n ≡ "websocket" → Normal n
  was_http2 : n ≡ "http2" → Normal n
  was_h2 : n ≡ "h2" → Normal n
  itself :
      network_normalised n ≡ n
      → str_eq n "websocket" ≡ false
      → str_eq n "http2" ≡ false
      → str_eq n "h2" ≡ false
      → Normal n

normal : (n : String) → Normal n
unfolding network_normalised
normal n = elim (Bool-cases (str_eq n "websocket")) [
  | inl e ↦ was_websocket ((eq_iff n "websocket").0 e)
  | inr e ↦ elim (Bool-cases (str_eq n "http2")) [
    | inl f ↦ was_http2 ((eq_iff n "http2").0 f)
    | inr f ↦ elim (Bool-cases (str_eq n "h2")) [
      | inl g ↦ was_h2 ((eq_iff n "h2").0 g)
      | inr g ↦ itself (rw (e, f, g, network_normalised) refl) e f g
    ]
  ]
]

or_false : (b : Bool) → b ≡ (b || false)
or_false true = refl
or_false false = refl

pub is_ws :
    (n : String) → str_eq (network_normalised n) "ws" ≡ (str_eq n "ws" || str_eq n "websocket")
unfolding network_normalised
is_ws n = elim (normal n) [
  | was_websocket e ↦ rw e refl
  | was_http2 e ↦ rw e refl
  | was_h2 e ↦ rw e refl
  | itself e a b c ↦ ap (λ m. str_eq m "ws") e ∙ rw a (or_false (str_eq n "ws"))
]

pub is_grpc : (n : String) → str_eq (network_normalised n) "grpc" ≡ str_eq n "grpc"
unfolding network_normalised
is_grpc n = elim (normal n) [
  | was_websocket e ↦ rw e refl
  | was_http2 e ↦ rw e refl
  | was_h2 e ↦ rw e refl
  | itself e a b c ↦ ap (λ m. str_eq m "grpc") e
]

pub is_http :
    (n : String)
    → str_eq (network_normalised n) "http" ≡ (str_eq n "h2" || str_eq n "http" || str_eq n "http2")
unfolding network_normalised
is_http n = elim (normal n) [
  | was_websocket e ↦ rw e refl
  | was_http2 e ↦ rw e refl
  | was_h2 e ↦ rw e refl
  | itself e a b c ↦ ap (λ m. str_eq m "http") e ∙ rw (b, c) (or_false (str_eq n "http"))
]
