-- ===== src/ClashApi/Stream.antt =====
-- `JsonWebSocketStream` of crates/shared/clash-api/src/lib.rs.
--
-- The socket of tungstenite is the parameter `Socket`, and the loop of `recv` runs on fuel: one for each
-- message that it reads.
use pingling.Prelude.{
  ℕ, zero, suc, ◌<◌, String, ◌≡◌, ◌∙◌, Option, none, some, Result, ok, err, map_err, arith,
}
use pingling.ClashApi.{
  Outside, ClashApiClient, websocket_url, ClashApiError, json, web_socket, protocol,
}

pub data Message : Type 0 where
  text binary ping pong : String → Message
  close frame : Message

pub record Socket (S T : Type 0) : Type 0 where
  pub read : S → Result Message String × S
  pub send_pong : String → S → Result (Unit {0}) String × S
  pub from_str : String → Result T String
  pub from_slice : String → Result T String

-- What a round of the loop comes to: the stream is as `recv` leaves it, or is read again.
pub data Round (S T : Type 0) : Type 0 where
  done : Result T ClashApiError → S → Round S T
  again : S → Round S T

module _ {S T : Type 0} (k : Socket S T) where
  unfoldable pub round : S → Round S T
  round s =
      let (read, s') = k.read s in
      elim read [
        | err e ↦ done (err (web_socket e)) s'
        | ok message ↦ elim message [
          | text t ↦ done (map_err json (k.from_str t)) s'
          | binary bytes ↦ done (map_err json (k.from_slice bytes)) s'
          | ping payload ↦
              let (sent, s2) = k.send_pong payload s' in
              elim sent [ err e ↦ done (err (web_socket e)) s2 | ok u ↦ again s2 ]
          | pong payload ↦ again s'
          | close ↦ done (err (protocol "clash websocket closed")) s'
          | frame ↦ again s'
        ]
      ]

  unfoldable pub recv : ℕ → S → Option (Result T ClashApiError × S)
  recv zero s = none
  recv (suc fuel) s = elim (round s) [
    | done result s' ↦ some (result, s')
    | again s' ↦ recv fuel s'
  ]

  -- The socket gives so many control messages, each ping of which is answered.
  pub data Quiet : ℕ → S → S → Type 0 where
    stop : {s : S} → Quiet 0 s s
    pinged :
        {n : ℕ} {s s1 s2 t : S} (payload : String)
        → k.read s ≡ (ok (ping payload), s1)
        → k.send_pong payload s1 ≡ (ok tt, s2)
        → Quiet n s2 t
        → Quiet (suc n) s t
    ponged :
        {n : ℕ} {s s1 t : S} (payload : String)
        → k.read s ≡ (ok (pong payload), s1)
        → Quiet n s1 t
        → Quiet (suc n) s t
    framed : {n : ℕ} {s s1 t : S} → k.read s ≡ (ok frame, s1) → Quiet n s1 t → Quiet (suc n) s t

  -- The socket gives something that is not passed over, and what comes of it.
  pub data Ends (s t : S) : Result T ClashApiError → Type 0 where
    texted :
        (word : String) → k.read s ≡ (ok (text word), t) → Ends s t (map_err json (k.from_str word))
    sent_bytes :
        (bytes : String)
        → k.read s ≡ (ok (binary bytes), t)
        → Ends s t (map_err json (k.from_slice bytes))
    closed : k.read s ≡ (ok close, t) → Ends s t (err (protocol "clash websocket closed"))
    broken : (e : String) → k.read s ≡ (err e, t) → Ends s t (err (web_socket e))
    unanswered :
        (payload e : String) (s1 : S)
        → k.read s ≡ (ok (ping payload), s1)
        → k.send_pong payload s1 ≡ (err e, t)
        → Ends s t (err (web_socket e))

  recv_at_end :
      {s t : S} {result : Result T ClashApiError} (fuel : ℕ)
      → Ends s t result
      → recv (suc fuel) s ≡ some (result, t)
  unfolding recv round
  recv_at_end fuel (texted word e) = ground (arith, e)
  recv_at_end fuel (sent_bytes bytes e) = ground (arith, e)
  recv_at_end fuel (closed e) = ground (arith, e)
  recv_at_end fuel (broken x e) = ground (arith, e)
  recv_at_end fuel (unanswered payload x s1 e q) = ground (arith, e, q)

  recv_again : (s t : S) (fuel : ℕ) → round s ≡ again t → recv (suc fuel) s ≡ recv fuel t
  unfolding recv
  recv_again s t fuel e = ground (arith, e)

  -- `recv` returns once the socket gives a text, bytes, a close or an error, or a pong cannot be sent:
  -- however many pings, pongs and frames come before, fuel for each of them and for the last message is
  -- enough, every ping is answered, and the result is that of the last message.
  pub recv-Ends :
      (fuel : ℕ) {n : ℕ} {s t u : S} {result : Result T ClashApiError}
      → n < fuel
      → Quiet n s t
      → Ends t u result
      → recv fuel s ≡ some (result, u)
  unfolding round
  recv-Ends zero few q end = absurd (omega arith)
  recv-Ends (suc fuel) few stop end = recv_at_end fuel end
  recv-Ends (suc fuel) few (pinged {s2 = s2} payload e q rest) end =
      recv_again _ s2 fuel (ground (arith, e, q)) ∙ recv-Ends fuel (omega arith) rest end
  recv-Ends (suc fuel) few (ponged {s1 = s1} payload e rest) end =
      recv_again _ s1 fuel (ground (arith, e)) ∙ recv-Ends fuel (omega arith) rest end
  recv-Ends (suc fuel) few (framed {s1 = s1} e rest) end =
      recv_again _ s1 fuel (ground (arith, e)) ∙ recv-Ends fuel (omega arith) rest end

-- `tungstenite::connect` is a parameter.
module _ {W V S : Type 0} (o : Outside W V) (connect : String → W → Result S String × W) where
  unfoldable pub subscribe : ClashApiClient → String → W → Result S ClashApiError × W
  subscribe self path w = elim (websocket_url o self path) [
    | err e ↦ (err e, w)
    | ok url ↦ let (socket, w') = connect url w in (map_err web_socket socket, w')
  ]

  unfoldable pub subscribe_traffic : ClashApiClient → W → Result S ClashApiError × W
  subscribe_traffic self w = subscribe self "/traffic" w

  unfoldable pub subscribe_connections : ClashApiClient → W → Result S ClashApiError × W
  subscribe_connections self w = subscribe self "/connections" w
