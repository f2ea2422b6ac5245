-- ===== src/World/Effects.antt =====
-- What the program does to its environment, and what the environment answers. A call of the MQTT
-- client, of the dialler or of the random number generator takes its answer from `Env`.
use mqtt_tunnel.Base.{ℕ, ◌≡◌, refl, ◌⊎◌, inl, inr, Bool, Option, List, Text, Dict}
use mqtt_tunnel.Control.{ControlPacket}

pub data Effect : Type 0 where
  -- `client.Publish(topic, qos, false, payload)`
  publishes : Text → ℕ → List ℕ → Effect
  -- `client.SubscribeMultiple`, with the QoS of each topic
  subscribes : Dict ℕ → Effect
  unsubscribes : Text → Effect
  -- `client.Disconnect(250)` and `client.Connect()`
  disconnects connects : Effect
  -- `go tun.mainLoop(ctx)` and `go con.handleRead(ctx)`
  starts_main_loop : ℕ → Effect
  starts_read : ℕ → Effect
  -- the goroutines that wait for connect_confirm and for connect_ack
  starts_confirm_timer : Text → Effect
  starts_ack_timer : Text → Effect
  dials : Text → Effect
  -- a write to the tunnel's connection that succeeds, and one that fails
  writes fails_to_write : ℕ → List ℕ → Effect

-- How a token of the MQTT client, or a dial, ended.
pub data Reply : Type 0 where
  accepted refused timed_out : Reply

-- `url.URL`: the scheme, and what `Hostname` and `Port` return.
pub record Url : Type 0 where
  pub scheme : Text
  pub hostname : Text
  pub port : Text

pub record Env : Type 0 where
  -- the time in seconds
  pub now : ℕ
  -- `math/rand`: what call number `i` of `Intn(62)` returns. `crypto/rand`: the bytes to come.
  pub draw : ℕ → ℕ
  pub random_bytes : List ℕ
  -- `url.Parse`; `none` is an error
  pub parse_url : Text → Option Url
  pub subscribe_reply : Reply
  pub unsubscribe_reply : Text → Reply
  pub publish_reply : Reply
  -- `client.Connect()` in attempt `n`, and whether the context ends in the wait behind it
  pub connect_reply : ℕ → Reply
  pub context_ends : ℕ → Bool
  pub dial_reply : Reply
  pub write_reply : Reply
  -- `json.Marshal` and `json.Unmarshal` at a control packet
  pub marshal : ControlPacket → List ℕ
  pub unmarshal : List ℕ → Option ControlPacket
  -- `os.ReadFile` of a CA certificate; `tls.LoadX509KeyPair` of a certificate and a key, and
  -- `x509.ParseCertificate` of the first certificate of that pair
  pub read_ca : Text → Option (List ℕ)
  pub loads_pair : Text → Text → Bool
  pub parses_leaf : Text → Text → Bool
  -- `unicode.IsLetter` and `unicode.IsDigit`
  pub is_letter : ℕ → Bool
  pub is_digit : ℕ → Bool

pub Reply-cases : (r : Reply) → (r ≡ accepted) ⊎ (r ≡ refused) ⊎ (r ≡ timed_out)
Reply-cases accepted = inl refl
Reply-cases refused = inr (inl refl)
Reply-cases timed_out = inr (inr refl)
