-- ===== src/Channel.antt =====
-- tunnel/safech.go, and the blocking send, on a buffered channel given by its contents.
use mqtt_tunnel.Base.{
  ℕ, ◌≤◌, ◌≡◌, Bool, true, false, Option, none, some, List, [], ◌∷◌, ◌++◌, arith, ltb, length,
  length-append, if◌then◌else◌,
}

module _ {ℓ} {A : Type ℓ} where
  -- `safeSend` and `safeSendWithDebug`: send if there is room, else drop and say so.
  unfoldable pub safe_send : ℕ → A → List A → List A × Bool
  safe_send cap v ch = if ltb (length ch) cap then (ch ++ (v ∷ []), true) else (ch, false)

  -- `ch <- v`; `none` means that the sender blocks.
  unfoldable pub send : ℕ → A → List A → Option (List A)
  send cap v ch = if ltb (length ch) cap then some (ch ++ (v ∷ [])) else none

  -- `safeSend` never takes the channel over its capacity. It reports success exactly when the value was
  -- appended, and leaves the contents as they were otherwise.
  pub safe_send_lem :
      (cap : ℕ) (v : A) (ch : List A)
      → length ch ≤ cap
      → let (ch', sent) = safe_send cap v ch in
        (length ch' ≤ cap)
        × (sent ≡ ltb (length ch) cap)
        × (ch' ≡ (if sent then ch ++ (v ∷ []) else ch))
  unfolding safe_send
  safe_send_lem cap v ch h = ground (arith, length-append ch (v ∷ []))

  pub length-send :
      (cap : ℕ) (v : A) (ch : List A) {ch' : List A}
      → send cap v ch ≡ some ch'
      → (length ch' ≤ cap) × (ch' ≡ ch ++ (v ∷ []))
  unfolding send
  length-send cap v ch e = ground (arith, length-append ch (v ∷ []))
