-- ===== src/System/Transport/Arrivals.antt =====
-- The chunks that are left of those that were read, and the lost ones between them.
use mqtt_tunnel.System.Transport.Rounds.{Taken}
use mqtt_tunnel.System.Transport.{written_by}
use mqtt_tunnel.System.Transport.{written_in, failures}
use mqtt_tunnel.Interleaving.{Interleaves, Interleaves-append, Interleaves-move}
use mqtt_tunnel.World.Effects.{Effect}
use mqtt_tunnel.World.{Bytes, TunnelRef}
use mqtt_tunnel.Base.{
  ℕ, suc, ◌+◌, ◌≡◌, refl, sym, ap, subst, ◌∙◌, inl, inr, List, [], ◌∷◌, ◌++◌, append-nil,
  append_assoc, arith, length,
}

written_in-append :
    (r : TunnelRef) (l m : List Effect) → written_in r (l ++ m) ≡ written_in r l ++ written_in r m
written_in-append r [] m = refl
written_in-append r (e ∷ l) m =
    ap (λ (x : List Bytes). written_by r e ++ x) (written_in-append r l m)
    ∙ sym (append_assoc (written_by r e) (written_in r l) (written_in r m))

-- The chunks that were read are those that were written to the connection, that wait for it, that are
-- on their way, or that wait to be published, in this order, and `n` lost ones in between.
abbrev pub Arrivals : ℕ → List Bytes → List Bytes → Type 0
Arrivals n known read = (lost : List Bytes) × (length lost ≡ n) × Interleaves lost known read

pub Arrivals-same :
    {n : ℕ} {known known' read : List Bytes}
    → known ≡ known'
    → Arrivals n known read
    → Arrivals n known' read
Arrivals-same {n} {read = read} e x = subst (λ (l : List Bytes). Arrivals n l read) e x

pub Arrivals-append :
    {n : ℕ} {known read : List Bytes} (b : Bytes)
    → Arrivals n known read
    → Arrivals n (known ++ (b ∷ [])) (read ++ (b ∷ []))
Arrivals-append b (lost, e, i) = (lost, e, Interleaves-append b i)

pub Arrivals-lose :
    {n : ℕ} {read : List Bytes} (p : List Bytes) (b : Bytes) (q : List Bytes)
    → Arrivals n (p ++ (b ∷ q)) read
    → Arrivals (suc n) (p ++ q) read
Arrivals-lose p b q (lost, e, i) =
    let (lost', e', i') = Interleaves-move p b q i in (lost', e' ∙ ap suc e, i')

pub append_assoc_four {ℓ} :
    {A : Type ℓ} (a b c d x : List A) → (a ++ (b ++ (c ++ d))) ++ x ≡ a ++ (b ++ (c ++ (d ++ x)))
append_assoc_four {A = A} a b c d x =
    append_assoc a (b ++ (c ++ d)) x
    ∙ ap (λ (l : List A). a ++ l)
        (append_assoc b (c ++ d) x ∙ ap (λ (l : List A). b ++ l) (append_assoc c d x))

pub regroup {ℓ} :
    {A : Type ℓ} (a b c d e : List A) → a ++ (b ++ ((c ++ d) ++ e)) ≡ (a ++ (b ++ c)) ++ (d ++ e)
regroup {A = A} a b c d e =
    ap (λ (z : List A). a ++ (b ++ z)) (append_assoc c d e)
    ∙ ap (λ (z : List A). a ++ z) (sym (append_assoc b c (d ++ e)))
    ∙ sym (append_assoc a (b ++ c) (d ++ e))

-- A chunk that is taken to be written, whatever comes of it
pub Taken-Arrivals :
    (r : TunnelRef) (log new : List Effect) (l left behind : List Bytes) (n : ℕ) (read : List Bytes)
    → Taken r l new left
    → Arrivals n (written_in r log ++ (l ++ behind)) read
    → Arrivals (failures new + n) (written_in r (log ++ new) ++ (left ++ behind)) read
Taken-Arrivals r log new l left behind n read (inl (e, none_failed)) x =
    let known = written_in r log in
    let now = written_in r new in
    let count : n ≡ failures new + n = omega (arith, none_failed) in
    subst (λ (k : ℕ). Arrivals k (written_in r (log ++ new) ++ (left ++ behind)) read) count
      (Arrivals-same
        (ap (λ (z : List Bytes). known ++ (z ++ behind)) e
          ∙ ap (λ (z : List Bytes). known ++ z) (append_assoc now left behind)
          ∙ sym (append_assoc known now (left ++ behind))
          ∙ ap (λ (z : List Bytes). z ++ (left ++ behind)) (sym (written_in-append r log new)))
        x)
Taken-Arrivals r log new l left behind n read (inr (b, e, none_written, one)) x =
    let known = written_in r log in
    let count : suc n ≡ failures new + n = omega (arith, one) in
    let same : written_in r (log ++ new) ≡ known =
      written_in-append r log new
      ∙ ap (λ (z : List Bytes). known ++ z) none_written
      ∙ append-nil known in
    subst (λ (k : ℕ). Arrivals k (written_in r (log ++ new) ++ (left ++ behind)) read) count
      (Arrivals-same (ap (λ (z : List Bytes). z ++ (left ++ behind)) (sym same)) (
        Arrivals-lose known b (left ++ behind)
          (Arrivals-same (ap (λ (z : List Bytes). known ++ (z ++ behind)) e) x)))
