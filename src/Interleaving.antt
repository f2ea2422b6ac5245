-- ===== src/Interleaving.antt =====
-- Two lists that are merged into one, each of which keeps its order.

use mqtt_tunnel.Base.{suc, ◌≡◌, refl, ap, subst, List, [], ◌∷◌, ◌++◌, arith, length}

-- The third list is made of the elements of the first and of the second.
pub data Interleaves {ℓ} {A : Type ℓ} : List A → List A → List A → Type ℓ where
  nothing : Interleaves [] [] []
  from_first : {l a r : List A} (x : A) → Interleaves l a r → Interleaves (x ∷ l) a (x ∷ r)
  from_second : {l a r : List A} (x : A) → Interleaves l a r → Interleaves l (x ∷ a) (x ∷ r)

module _ {ℓ} {A : Type ℓ} where
  pub Interleaves-append :
      {l a r : List A} (x : A) → Interleaves l a r → Interleaves l (a ++ (x ∷ [])) (r ++ (x ∷ []))
  Interleaves-append x nothing = from_second x nothing
  Interleaves-append x (from_first y i) = from_first y (Interleaves-append x i)
  Interleaves-append x (from_second y i) = from_second y (Interleaves-append x i)

  or_tail : List A → List A → List A
  or_tail d [] = d
  or_tail d (x ∷ a) = a

  or_head : A → List A → A
  or_head d [] = d
  or_head d (x ∷ a) = x

  -- With one more element of the first list: `a` in place of one that was of the second.
  abbrev pub Moved : List A → List A → List A → Type ℓ
  Moved l a r = (l' : List A) × (length l' ≡ suc (length l)) × Interleaves l' a r

  move :
      {l a r : List A} (p : List A) (b : A) (q : List A)
      → Interleaves l a r
      → a ≡ p ++ (b ∷ q)
      → Moved l (p ++ q) r
  unfolding or_tail or_head
  move [] b q nothing e = absurd (ground (arith, e))
  move (y ∷ p) b q nothing e = absurd (ground (arith, e))
  move p b q (from_first x i) e =
      let (l', n, j) = move p b q i e in (x ∷ l', ap suc n, from_first x j)
  move [] b q (from_second {l} {a} {r} x i) e =
      (x ∷ l, refl, from_first x (subst (λ (z : List A). Interleaves l z r) (ap (or_tail a) e) i))
  move (y ∷ p) b q (from_second {l} {a} {r} x i) e =
      let (l', n, j) = move p b q i (ap (or_tail a) e) in
      (
        l',
        n,
        subst (λ (z : A). Interleaves l' (z ∷ (p ++ q)) (x ∷ r)) (ap (or_head x) e)
            (from_second x j),
      )

  pub Interleaves-move :
      {l r : List A} (p : List A) (b : A) (q : List A)
      → Interleaves l (p ++ (b ∷ q)) r
      → Moved l (p ++ q) r
  Interleaves-move p b q i = move p b q i refl

  -- With no element in the first list, the second one is the whole.
  pub Interleaves-none : {l a r : List A} → l ≡ [] → Interleaves l a r → a ≡ r
  Interleaves-none e nothing = refl
  Interleaves-none e (from_first x i) = absurd (ground (arith, e))
  Interleaves-none e (from_second x i) = ap (◌∷◌ x) (Interleaves-none e i)
