-- ===== src/Std/Lines/Laws.antt =====
-- Lines that are joined split again into the same lines.
use mqtt_tunnel.Base.{ℕ, ◌≡◌, refl, ap, ◌∙◌, ◌≢◌, List, [], ◌∷◌, ◌++◌, arith, All}
use mqtt_tunnel.Std.Lines.{split_lines, join_lines}

split_lines-line :
    (l s : List ℕ) → All (λ c. c ≢ 10) l → split_lines (l ++ (10 ∷ s)) ≡ l ∷ split_lines s
unfolding split_lines
split_lines-line [] s all = refl
split_lines-line (c ∷ l) s (n, all) = ground (arith, n, split_lines-line l s all)

split_lines-one : (l : List ℕ) → All (λ c. c ≢ 10) l → split_lines l ≡ l ∷ []
unfolding split_lines
split_lines-one [] all = refl
split_lines-one (c ∷ l) (n, all) = ground (arith, n, split_lines-one l all)

pub split_lines-join_lines :
    (l : List ℕ) (ls : List (List ℕ))
    → All (All (λ c. c ≢ 10)) (l ∷ ls)
    → split_lines (join_lines (l ∷ ls)) ≡ l ∷ ls
unfolding join_lines
split_lines-join_lines l [] (h, all) = split_lines-one l h
split_lines-join_lines l (m ∷ ls) (h, all) =
    split_lines-line l (join_lines (m ∷ ls)) h ∙ ap (◌∷◌ l) (split_lines-join_lines m ls all)
