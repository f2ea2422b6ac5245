-- ===== src/CommandLine/Log/Rotation.antt =====
-- What is left of a log file that is rotated.
use mqtt_tunnel.Base.{
  ℕ, zero, suc, ◌-◌, ◌≤◌, ◌<◌, ◌≡◌, refl, sym, ap, ◌∙◌, inl, inr, some, List, [], ◌∷◌, ◌++◌,
  append_assoc, arith, ltb, ◌==◌, Bool-cases, length, take, drop,
}
use mqtt_tunnel.CommandLine.Log.{behind_newline, rotated}

behind_newline-split :
    (s r : List ℕ)
    → behind_newline s ≡ some r
    → (t : List ℕ) × (s ≡ t ++ (10 ∷ r)) × (length r < length s)
unfolding behind_newline
behind_newline-split [] r e = absurd (ground arith)
behind_newline-split (c ∷ s) r e = elim (Bool-cases (c == 10)) [
  | inl y ↦ ([], ground arith, ground arith)
  | inr y ↦
      let (t, p, l) = behind_newline-split s r (ground arith) in (c ∷ t, ap (◌∷◌ c) p, omega arith)
]

length-drop : (n : ℕ) (s : List ℕ) → n ≤ length s → length (drop n s) ≡ length s - n
length-drop zero s h = omega arith
length-drop (suc n) [] h = absurd (omega arith)
length-drop (suc n) (c ∷ s) h = omega (arith, length-drop n s)

take-drop : (n : ℕ) (s : List ℕ) → take n s ++ drop n s ≡ s
take-drop zero s = refl
take-drop (suc n) [] = refl
take-drop (suc n) (c ∷ s) = ap (◌∷◌ c) (take-drop n s)

-- A log file that is rotated had more than `max` bytes, keeps fewer than `max`, and what it keeps
-- are its last lines, whole: it is what stood behind one of its newlines.
pub rotated-split :
    (max : ℕ) (content kept : List ℕ)
    → rotated max content ≡ some kept
    → (max < length content) × (length kept < max) × ((t : List ℕ) × (content ≡ t ++ (10 ∷ kept)))
unfolding rotated
rotated-split max content kept e = elim (Bool-cases (ltb max (length content))) [
  | inl y ↦
      let k : ℕ = length content - max in
      let (t, p, l) = behind_newline-split (drop k content) kept (rw y at e) in
      (
        ground arith,
        ground (arith, length-drop k content),
        (
          take k content ++ t,
          sym (take-drop k content)
              ∙ ap (λ (s : List ℕ). take k content ++ s) p
              ∙ sym (append_assoc (take k content) t (10 ∷ kept)),
        ),
      )
  | inr y ↦ absurd (ground arith)
]
