-- ===== src/Std/Space/Laws.antt =====
-- A text that ends in a comma, and white space behind it, ends in the comma when it is trimmed.
use mqtt_tunnel.Base.{
  ℕ, zero, suc, ◌≤◌, ◌≡◌, refl, sym, ap, subst, ◌∙◌, ◌⊎◌, inl, inr, true, List, [], ◌∷◌, ◌++◌,
  arith, length, append_assoc, All,
}
use mathlib.Core.List.{reverse-reverse, reverse, reverse-append}
use mqtt_tunnel.Std.Space.{is_ascii_space, space_len, back_space_len, trim_from, trim_space}

-- Some text in front of a comma.
abbrev pub EndsInComma : List ℕ → Type 0
EndsInComma s = (t : List ℕ) × (s ≡ t ++ (b',' ∷ []))

abbrev pub AllSpaces : List ℕ → Type 0
AllSpaces ws = All (λ c. is_ascii_space c ≡ true) ws

-- White space at the start leaves the comma.
space_len-comma :
    (c k : ℕ) (s ws : List ℕ) → space_len (c ∷ (s ++ (b',' ∷ ws))) ≡ suc k → k ≤ length s
unfolding space_len
space_len-comma c k [] [] e = ground arith
space_len-comma c k [] (x ∷ ws) e = ground arith
space_len-comma c k (d ∷ []) ws e = ground arith
space_len-comma c k (d ∷ f ∷ s) ws e = ground arith

ℕ-cases : (n : ℕ) → (n ≡ 0) ⊎ ((k : ℕ) × (n ≡ suc k))
ℕ-cases zero = inl refl
ℕ-cases (suc k) = inr (k, refl)

comma_len : (ws : List ℕ) → space_len (b',' ∷ ws) ≡ 0
unfolding space_len
comma_len [] = refl
comma_len (x ∷ []) = ground arith
comma_len (x ∷ y ∷ ws) = ground arith

trim_from-comma :
    (k : ℕ) (s ws : List ℕ)
    → k ≤ length s
    → (t : List ℕ) × (trim_from space_len k (s ++ (b',' ∷ ws)) ≡ t ++ (b',' ∷ ws))
unfolding trim_from
trim_from-comma zero [] ws h = ([], rw (comma_len ws, trim_from) refl)
trim_from-comma (suc k) [] ws h = absurd (omega arith)
trim_from-comma (suc k) (c ∷ s) ws h = trim_from-comma k s ws (omega arith)
trim_from-comma zero (c ∷ s) ws h = elim (ℕ-cases (space_len (c ∷ (s ++ (b',' ∷ ws))))) [
  | inl e ↦ (c ∷ s, rw (e, trim_from) refl)
  | inr (k, e) ↦ rw (e, trim_from) (trim_from-comma k s ws (space_len-comma c k s ws e))
]

back-comma : (s : List ℕ) → trim_from back_space_len 0 (b',' ∷ s) ≡ b',' ∷ s
unfolding trim_from back_space_len
back-comma [] = refl
back-comma (c ∷ []) = ground arith
back-comma (c ∷ d ∷ s) = ground arith

back_space_len-ascii : (c : ℕ) (s : List ℕ) → is_ascii_space c ≡ true → back_space_len (c ∷ s) ≡ 1
unfolding back_space_len
back_space_len-ascii c [] e = rw e refl
back_space_len-ascii c (d ∷ []) e = rw e refl
back_space_len-ascii c (d ∷ f ∷ s) e = rw e refl

back-spaces :
    (u s : List ℕ)
    → AllSpaces u
    → trim_from back_space_len 0 (u ++ s) ≡ trim_from back_space_len 0 s
unfolding trim_from
back-spaces [] s all = refl
back-spaces (c ∷ u) s (h, all) =
    rw (back_space_len-ascii c (u ++ s) h, trim_from) (back-spaces u s all)

AllSpaces-append : (a b : List ℕ) → AllSpaces a → AllSpaces b → AllSpaces (a ++ b)
AllSpaces-append [] b x y = y
AllSpaces-append (c ∷ a) b (h, x) y = (h, AllSpaces-append a b x y)

AllSpaces-reverse : (ws : List ℕ) → AllSpaces ws → AllSpaces (reverse ws)
AllSpaces-reverse [] all = tt
AllSpaces-reverse (c ∷ ws) (h, all) =
    subst AllSpaces (sym (reverse-append (c ∷ []) ws))
      (AllSpaces-append (reverse ws) (c ∷ []) (AllSpaces-reverse ws all) (h, tt))

pub trim_space-EndsInComma :
    (s ws : List ℕ) → AllSpaces ws → EndsInComma (trim_space (s ++ (b',' ∷ ws)))
unfolding trim_space
trim_space-EndsInComma s ws all =
    let back = trim_from back_space_len 0 in
    let (t, e) = trim_from-comma 0 s ws (omega arith) in
    let turned : reverse (t ++ (b',' ∷ ws)) ≡ reverse ws ++ (b',' ∷ reverse t) =
      reverse-append t (b',' ∷ ws)
      ∙ ap (λ (x : List ℕ). x ++ reverse t) (reverse-append (b',' ∷ []) ws)
      ∙ append_assoc (reverse ws) (b',' ∷ []) (reverse t) in
    (
      t,
      ap (λ (x : List ℕ). reverse (back (reverse x))) e
          ∙ ap (λ (x : List ℕ). reverse (back x)) turned
          ∙ ap reverse (back-spaces (reverse ws) (b',' ∷ reverse t) (AllSpaces-reverse ws all))
          ∙ ap reverse (back-comma (reverse t))
          ∙ ap reverse (sym (reverse-append t (b',' ∷ [])))
          ∙ reverse-reverse (t ++ (b',' ∷ [])),
    )
