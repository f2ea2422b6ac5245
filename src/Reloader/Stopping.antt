-- ===== src/Reloader/Stopping.antt =====
-- What `Stop` does not stop.
use mqtt_tunnel.Base.{◌+◌, ◌≡◌, refl, true, none, [], ◌∷◌, arith}
use mqtt_tunnel.Reloader.{
  Notice, Reloader, start, stop, reset_timer, is_change, on_notice, notified, reloads, stops, waits,
  notice, fire, stopping, wait, Run, begun, goes,
}

-- A change that the goroutine takes behind `Stop` arms the timer again, so the configuration of a
-- stopped reloader is still reloaded: for every change of the file there is such a run.
pub stop-reloads :
    (c : Reloader) (n : Notice)
    → is_change c n ≡ true
    → (d : Reloader) × Run c
        (0 + c.debounce)
        d
        ((0 + c.debounce, reloads) ∷ (0, waits c.debounce) ∷ (0, notified n) ∷ (0, stops) ∷ [])
      × (d.cancelled ≡ true)
unfolding on_notice reset_timer is_change
stop-reloads c n e = (
  record (on_notice 0 n (stop (start c))) { timer = none },
  goes (goes (goes (goes begun stopping) (notice n refl)) (wait c.debounce))
      (fire {due = 0 + c.debounce} (ground arith) (omega arith)),
  ground arith,
)
