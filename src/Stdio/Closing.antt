-- ===== src/Stdio/Closing.antt =====
-- When standard input and output are closed, and what still comes behind that.
use mqtt_tunnel.Base.{
  ℕ, suc, ◌+◌, ◌≤◌, ◌≡◌, Bool, true, false, ◌&&◌, ◌||◌, List, [], ◌∷◌, arith, if◌then◌else◌,
}
use mqtt_tunnel.Stdio.{
  Side, input, output, Stdio, closed, busy, begin, finish, close, Happening, begins, returns,
  refused, closes, Step, start, answer, refuse, closing, Run, opened, goes,
}

abbrev same : Side → Side → Bool
same input input = true
same input output = false
same output input = false
same output output = true

-- A side is at its end behind `Close`, and behind its own first error.
abbrev pub ended : Side → List Happening → Bool
ended s [] = false
ended s (begins t ∷ past) = ended s past
ended s (returns t bytes failed ∷ past) = (same s t && failed) || ended s past
ended s (refused t ∷ past) = ended s past
ended s (closes ∷ past) = true

-- How many calls return from the stream of a side although that side was at its end.
abbrev pub late : Side → List Happening → ℕ
late s [] = 0
late s (begins t ∷ past) = late s past
late s (returns t bytes failed ∷ past) =
    let rest = late s past in if same s t && ended s past then suc rest else rest
late s (refused t ∷ past) = late s past
late s (closes ∷ past) = late s past

abbrev Counts : Side → Stdio → List Happening → Type 0
Counts s c past =
    (closed s c ≡ ended s past)
    × (late s past + (if busy s c && ended s past then 1 else 0) ≤ 1)
    × (ended s past ≡ false → late s past ≡ 0)

Step-Counts :
    {c d : Stdio} {h : Happening} (s : Side) (past : List Happening)
    → Counts s c past
    → Step c h d
    → Counts s d (h ∷ past)
unfolding begin finish close
Step-Counts input past v (start input o b) = ground arith
Step-Counts input past v (start output o b) = v
Step-Counts output past v (start input o b) = v
Step-Counts output past v (start output o b) = ground arith
Step-Counts input past v (answer input bytes true b) = ground arith
Step-Counts input past v (answer input bytes false b) = ground arith
Step-Counts input past v (answer output bytes f b) = v
Step-Counts output past v (answer input bytes f b) = v
Step-Counts output past v (answer output bytes true b) = ground arith
Step-Counts output past v (answer output bytes false b) = ground arith
Step-Counts s past v (refuse t o b) = v
Step-Counts input past v closing = ground arith
Step-Counts output past v closing = ground arith

Run-Counts : (s : Side) {c : Stdio} {past : List Happening} → Run c past → Counts s c past
Run-Counts input opened = ground arith
Run-Counts output opened = ground arith
Run-Counts s (goes {past = past} before last) = Step-Counts s past (Run-Counts s before) last

-- In every run of the connection, under any order of the halves of `Read`, `Write` and `Close`: a side
-- is closed exactly if `Close` was called or its stream failed, and behind that at most one call
-- still returns from the stream, the one that was at work; all later calls are refused.
pub Run-late :
    {c : Stdio} {past : List Happening} (s : Side)
    → Run c past
    → (closed s c ≡ ended s past) × (late s past ≤ 1)
Run-late s all = let (e, l, z) = Run-Counts s all in (e, omega arith)
