-- ===== src/System/Reloading.antt =====
-- What a new configuration does to a server: the case of `reloadCh` of `StartRemote`.
use mqtt_tunnel.World.{Tunnel, TunnelRef}
use mqtt_tunnel.MqTunnel.Loops.{stops}
use mqtt_tunnel.MqTunnel.{close_all_tunnels}
use mqtt_tunnel.MqTunnel.Closing.{close_all_tunnels_lem}
use mqtt_tunnel.MqTunnel.Loops.{take_reload}
use mqtt_tunnel.World.Effects.{disconnects}
use mqtt_tunnel.Broker.{control_topic_of}
use mqtt_tunnel.Broker.Connect.{
  connect_with_retry, new_broker, new_mqtt_broker, new_ping_topic, try_connect, with_options,
}
use mqtt_tunnel.Broker.Options.{MadeOptions, get_mqtt_options, no_options, options}
use mqtt_tunnel.Config.{Config}
use mqtt_tunnel.Control.Random.{generate_random_id}
use mqtt_tunnel.MqTunnel.Closing.{Cancels}
use mqtt_tunnel.MqTunnel.Loops.{stops, Turn, continues, install, reload_turn}
use mqtt_tunnel.System.{after_turn}
use mqtt_tunnel.World.{World, emit}
use mqtt_tunnel.World.Effects.{Env, connects}
use mqtt_tunnel.World.Monad.{Error, broker_after_reload}
use mqtt_tunnel.Base.{
  ◌≡◌, refl, sym, subst, ◌∙◌, ◌⊎◌, inl, inr, true, Option, none, some, List, [], ◌∷◌, match-cases,
  Text, lookup, pos,
}

-- A process that is set up for the configuration `c`, with a broker object that knows no tunnel yet
pub record SetUpFor (c : Config) (w : World) : Type 0 where
  pub conf : w.conf ≡ c
  pub broker_conf : w.broker.broker_conf ≡ c
  pub control_topic : w.broker.control_topic ≡ control_topic_of c.topic
  pub no_topics : w.broker.tunnel_topics ≡ []
  pub side : w.broker.server_side ≡ w.is_server_mode
  pub maps_set : w.broker.maps_set ≡ true
  pub no_signals : (w.broker.tunnel_done_ch ≡ []) × (w.broker.tunnel_closed_ch ≡ [])

-- What making the broker object makes of the world `w`: the loop goes on with the new object, or it
-- returns an error. Maps and tunnels stay.
pub data Remade (c : Config) (w : World) (t : Turn) : Type 0 where
  goes_on :
      (u : World)
      → t ≡ continues u
      → u.maps ≡ w.maps
      → u.heap ≡ w.heap
      → SetUpFor c u
      → Remade c w t
  gives_in :
      (e : Error) (u : World)
      → t ≡ stops (some (broker_after_reload e)) u
      → u.maps ≡ w.maps
      → u.heap ≡ w.heap
      → Remade c w t

module _ (env : Env) (c : Config) (w : World) (same : w.conf ≡ c) where
  try_connect-Remade :
      (topic : Text) (o : Option Error)
      → Remade c w
          (install (try_connect env (new_broker env c w.is_server_mode topic) o (emit connects w)))
  unfolding new_broker
  try_connect-Remade topic none = goes_on _ refl refl refl (record {
    conf = same;
    broker_conf = refl;
    control_topic = refl;
    no_topics = refl;
    side = refl;
    maps_set = refl;
    no_signals = (refl, refl);
  })
  try_connect-Remade topic (some e) = gives_in _ _ refl refl refl

  with_options-Remade :
      (topic : Text) (p : MadeOptions)
      → Remade c w (install (with_options env (new_broker env c w.is_server_mode topic) p w))
  with_options-Remade topic (no_options e) = gives_in _ _ refl refl refl
  with_options-Remade topic (options o) = try_connect-Remade topic (connect_with_retry env).failure

  new_mqtt_broker-Remade : Remade c w (install (new_mqtt_broker env c w.is_server_mode w))
  unfolding new_mqtt_broker
  new_mqtt_broker-Remade =
      match-cases (λ o. Remade c w (install o)) (generate_random_id (pos 6) env.random_bytes)
        (λ _. gives_in _ _ refl refl refl)
        (λ (id, bs) _.
          match-cases (λ o. Remade c w (install o)) (new_ping_topic c bs)
            (λ _. gives_in _ _ refl refl refl)
            (λ topic _. with_options-Remade topic (get_mqtt_options env c id)))

-- Every tunnel of the three maps is cancelled, and no tunnel is changed otherwise.
abbrev pub AllCancelled : World → (TunnelRef → Tunnel) → Type 0
AllCancelled w h =
    Cancels w.heap h
    × ((id : Text) (r : TunnelRef)
        → (lookup id w.connected ≡ some r)
          ⊎ (lookup id w.ack_waiting ≡ some r)
          ⊎ (lookup id w.pending_confirms ≡ some r)
        → (h r).cancelled ≡ true)

-- The world after the turn
abbrev Reloaded : Config → World → World → Type 0
Reloaded c w u =
    (u.maps ≡ record { ack_waiting = []; pending_confirms = []; connected = [] })
    × AllCancelled w u.heap
    × (SetUpFor c u ⊎ (u.exit_code ≡ some 1))

Remade-Reloaded :
    (c : Config) (w v : World) (t : Turn)
    → v.maps ≡ record { ack_waiting = []; pending_confirms = []; connected = [] }
    → AllCancelled w v.heap
    → Remade c v t
    → Reloaded c w (after_turn w t)
Remade-Reloaded c w v t m h (goes_on u e m' h' s) =
    subst (λ (x : Turn). Reloaded c w (after_turn w x)) (sym e)
      (m' ∙ m, subst (AllCancelled w) (sym h') h, inl s)
Remade-Reloaded c w v t m h (gives_in x u e m' h') =
    subst (λ (y : Turn). Reloaded c w (after_turn w y)) (sym e)
      (m' ∙ m, subst (AllCancelled w) (sym h') h, inr refl)

-- When a new configuration waits, the server's turn for it forgets and cancels every tunnel. Then
-- either it goes on with the new configuration and a broker object of its own for it, which knows no
-- tunnel and has the maps set, or that object cannot be made and the process ends with 1.
pub reload_turn_lem :
    (env : Env) (w : World) (c : Config) (cs : List Config)
    → w.reload_ch ≡ c ∷ cs
    → let u = after_turn w (reload_turn env w) in
      (u.maps ≡ record { ack_waiting = []; pending_confirms = []; connected = [] })
      × AllCancelled w u.heap
      × (SetUpFor c u ⊎ (u.exit_code ≡ some 1))
unfolding reload_turn
reload_turn_lem env w c cs q =
    let closed : World = close_all_tunnels env (record w { reload_ch = cs }) in
    let v : World = emit disconnects (record closed { conf = c }) in
    let (m, h, all) = close_all_tunnels_lem env (record w { reload_ch = cs }) in
    subst (λ (l : List Config). Reloaded c w (after_turn w (take_reload env l w))) (sym q)
      (Remade-Reloaded c w v (install (new_mqtt_broker env c v.is_server_mode v)) m (h, all)
        (new_mqtt_broker-Remade env c v refl))
