-- ===== src/World/Monad.antt =====
-- Steps that change the world and may return an error.
use mqtt_tunnel.World.{World}

-- The errors that the handlers return. A wrapping `%w` is a constructor with the wrapped error.
pub data Error : Type 0 where
  subscribe_timed_out subscribe_failed : Error
  unsubscribe_timed_out unsubscribe_failed : Error
  publish_failed dial_failed invalid_server_address : Error
  connect_timed_out connect_refused context_ended retries_exhausted : Error
  bad_broker_url bad_certificate awaiting_random : Error
  write_failed not_connected unknown_control_type tunnel_connection_timeout : Error
  broker_open tcp_connection publish_control : Error → Error
  connect_failed broker_after_reload failed_to_reconnect new_tunnel_from_connect : Error → Error
  new_tunnel_from_control setup_remote_tunnel_failed : Error → Error
  setup_local_tunnel_failed start_confirmed_tunnel_failed open_request_failed : Error → Error

pub data Outcome {ℓ} (A : Type ℓ) : Type ℓ where
  ok : A → World → Outcome A
  fail : Error → World → Outcome A

abbrev pub M : Type 0 → Type 0
M A = World → Outcome A

infixl 5 ◌>>=◌ ◌>>◌
abbrev pub ◌>>=◌ : {A B : Type 0} → M A → (A → M B) → M B
◌>>=◌ m f w = elim (m w) [ ok a w' ↦ f a w' | fail e w' ↦ fail e w' ]

abbrev pub ◌>>◌ : {A B : Type 0} → M A → M B → M B
◌>>◌ m k w = elim (m w) [ ok a w' ↦ k w' | fail e w' ↦ fail e w' ]

abbrev pub return : {A : Type 0} → A → M A
return a w = ok a w

abbrev pub throw : {A : Type 0} → Error → M A
throw e w = fail e w

-- An update that cannot fail.
abbrev pub modify : (World → World) → M (Unit {0})
modify f w = ok tt (f w)

-- `fmt.Errorf("…, %w", err)`
abbrev pub wrap : {A : Type 0} → (Error → Error) → M A → M A
wrap f m w = elim (m w) [ ok a w' ↦ ok a w' | fail e w' ↦ fail (f e) w' ]

abbrev pub final {ℓ} : {A : Type ℓ} → Outcome A → World
final (ok a w) = w
final (fail e w) = w
