-- ===== src/Reloader/Debounce.antt =====
-- When the configuration is reloaded: once for each burst of changes, after a quiet time.
use mqtt_tunnel.Base.{
  ℕ, ◌+◌, ◌≤◌, ◌≡◌, refl, sym, ◌∙◌, ◌↔◌, ◌⊎◌, inl, inr, true, false, Option, none, some, List, [],
  ◌∷◌, arith, if◌then◌else◌, Bool-cases,
}
use mqtt_tunnel.Reloader.{
  Notice, Reloader, reset_timer, is_change, on_notice, Happening, notified, watch_error, watch_ends,
  reloads, stops, waits, Step, notice, error, ending, fire, stopping, wait, Run, begun, goes,
}

-- When the timer is due, from the history alone: `debounce` seconds behind the last change, if
-- neither a reload nor `Stop` came since.
abbrev pub due_after : Reloader → List (ℕ × Happening) → Option ℕ
due_after c [] = none
due_after c ((t, notified n) ∷ past) =
    let before = due_after c past in if is_change c n then some (t + c.debounce) else before
due_after c ((t, reloads) ∷ past) = none
due_after c ((t, stops) ∷ past) = none
due_after c ((t, watch_error) ∷ past) = due_after c past
due_after c ((t, watch_ends) ∷ past) = due_after c past
due_after c ((t, waits k) ∷ past) = due_after c past

-- A run never changes what the reloader watches, and how long it waits.
Run-same :
    {c0 c : Reloader} {now : ℕ} {past : List (ℕ × Happening)}
    → Run c0 now c past
    → (c.config_path ≡ c0.config_path) × (c.debounce ≡ c0.debounce)
unfolding on_notice reset_timer
Run-same begun = (refl, refl)
Run-same (goes run (notice n w)) = ground (arith, Run-same run)
Run-same (goes run (error w)) = Run-same run
Run-same (goes run (ending w x)) = Run-same run
Run-same (goes run (fire e l)) = Run-same run
Run-same (goes run stopping) = Run-same run
Run-same (goes run (wait k)) = Run-same run

on_notice-timer :
    (now : ℕ) (n : Notice) (c c0 : Reloader)
    → c.config_path ≡ c0.config_path
    → c.debounce ≡ c0.debounce
    → (on_notice now n c).timer ≡ (if is_change c0 n then some (now + c0.debounce) else c.timer)
unfolding on_notice reset_timer is_change
on_notice-timer now n c c0 p d = ground arith

-- In every run the timer is armed exactly as the history says: for the time `debounce` behind the
-- last change of the file, unless a reload or `Stop` came since, and not at all without a change.
pub Run-timer :
    {c0 c : Reloader} {now : ℕ} {past : List (ℕ × Happening)}
    → c0.timer ≡ none
    → Run c0 now c past
    → c.timer ≡ due_after c0 past
Run-timer z begun = z
Run-timer {c0} z (goes {now = now} {c = c} run (notice n w)) =
    let (p, d) = Run-same run in on_notice-timer now n c c0 p d ∙ ground (arith, Run-timer z run)
Run-timer z (goes run (error w)) = Run-timer z run
Run-timer z (goes run (ending w x)) = Run-timer z run
Run-timer z (goes run (fire e l)) = refl
Run-timer z (goes run stopping) = refl
Run-timer z (goes run (wait k)) = Run-timer z run

-- Whether a happening is a change of the file, and whether it leaves a pending reload as it is.
abbrev pub Changes : Reloader → Happening → Type 0
Changes c (notified n) = is_change c n ≡ true
Changes c h = ⊥

abbrev pub Idle : Reloader → Happening → Type 0
Idle c (notified n) = is_change c n ≡ false
Idle c reloads = ⊥
Idle c stops = ⊥
Idle c h = Unit

-- The last change came at `t`, and neither a reload nor `Stop` came since.
abbrev pub LastChange : Reloader → ℕ → List (ℕ × Happening) → Type 0
LastChange c t [] = ⊥
LastChange c t ((u, h) ∷ past) = (Changes c h × (u ≡ t)) ⊎ (Idle c h × LastChange c t past)

due_after-LastChange :
    (c : Reloader) (past : List (ℕ × Happening)) (due : ℕ)
    → due_after c past ≡ some due
    → (t : ℕ) × (due ≡ t + c.debounce) × LastChange c t past
due_after-LastChange c [] due e = absurd (ground arith)
due_after-LastChange c ((t, notified n) ∷ past) due e = elim (Bool-cases (is_change c n)) [
  | inl y ↦ (t, ground arith, inl (y, refl))
  | inr y ↦ let (u, d, l) = due_after-LastChange c past due (ground arith) in (u, d, inr (y, l))
]
due_after-LastChange c ((t, reloads) ∷ past) due e = absurd (ground arith)
due_after-LastChange c ((t, stops) ∷ past) due e = absurd (ground arith)
due_after-LastChange c ((t, watch_error) ∷ past) due e =
    let (u, d, l) = due_after-LastChange c past due e in (u, d, inr (tt, l))
due_after-LastChange c ((t, watch_ends) ∷ past) due e =
    let (u, d, l) = due_after-LastChange c past due e in (u, d, inr (tt, l))
due_after-LastChange c ((t, waits k) ∷ past) due e =
    let (u, d, l) = due_after-LastChange c past due e in (u, d, inr (tt, l))

LastChange-due_after :
    (c : Reloader) (past : List (ℕ × Happening)) (t : ℕ)
    → LastChange c t past
    → due_after c past ≡ some (t + c.debounce)
LastChange-due_after c [] t l = absurd l
LastChange-due_after c ((u, notified n) ∷ past) t (inl (y, e)) = ground arith
LastChange-due_after c ((u, notified n) ∷ past) t (inr (y, l)) =
    ground (arith, LastChange-due_after c past t l)
LastChange-due_after c ((u, reloads) ∷ past) t (inl (y, e)) = absurd y
LastChange-due_after c ((u, reloads) ∷ past) t (inr (y, l)) = absurd y
LastChange-due_after c ((u, stops) ∷ past) t (inl (y, e)) = absurd y
LastChange-due_after c ((u, stops) ∷ past) t (inr (y, l)) = absurd y
LastChange-due_after c ((u, watch_error) ∷ past) t (inl (y, e)) = absurd y
LastChange-due_after c ((u, watch_error) ∷ past) t (inr (y, l)) = LastChange-due_after c past t l
LastChange-due_after c ((u, watch_ends) ∷ past) t (inl (y, e)) = absurd y
LastChange-due_after c ((u, watch_ends) ∷ past) t (inr (y, l)) = LastChange-due_after c past t l
LastChange-due_after c ((u, waits k) ∷ past) t (inl (y, e)) = absurd y
LastChange-due_after c ((u, waits k) ∷ past) t (inr (y, l)) = LastChange-due_after c past t l

fire-due :
    {now later : ℕ} {c d : Reloader}
    → Step now c reloads later d
    → (u : ℕ) × (c.timer ≡ some u) × (u ≤ now)
fire-due (fire {due = due} e l) = (due, e, l)

-- The configuration can be reloaded at a moment exactly if the file changed at least `debounce`
-- seconds ago and not again since, and neither a reload nor `Stop` came since that change.
pub Run-reloads :
    {c0 c : Reloader} {now : ℕ} {past : List (ℕ × Happening)}
    → c0.timer ≡ none
    → Run c0 now c past
    → ((d : Reloader) × Step now c reloads now d)
      ↔ ((t : ℕ) × (t + c0.debounce ≤ now) × LastChange c0 t past)
Run-reloads {c0} {c} {now} {past} z run = (only_if, if_due)
  where
    only_if :
        (d : Reloader) × Step now c reloads now d
        → (t : ℕ) × (t + c0.debounce ≤ now) × LastChange c0 t past
    only_if (d, st) =
        let (due, e, l) = fire-due st in
        let (t, x, last) = due_after-LastChange c0 past due (sym (Run-timer z run) ∙ e) in
        (t, omega arith, last)

    if_due :
        (t : ℕ) × (t + c0.debounce ≤ now) × LastChange c0 t past
        → (d : Reloader) × Step now c reloads now d
    if_due (t, l, last) =
        (record c { timer = none }, fire (Run-timer z run ∙ LastChange-due_after c0 past t last) l)
