-- ===== src/CmdLine/Command/Laws.antt =====
-- The map of parameters: its keys in order, and what is found in it.
use Prim.Native.Nat.{Ordering}
use ritex.Base.{◌≡◌, refl, Option, none, List, [], ◌∷◌, ◌⊎◌, inl, inr, arith}
use ritex.CmdLine.Words.{Word}
use ritex.CmdLine.Command.{order, found, find, assign}

pub order_refl : (a : Word) → order a a ≡ Ordering.eq
unfolding order
order_refl [] = refl
order_refl (x ∷ a) = ground (arith, order_refl a)

pub eq_of_order : (a b : Word) → order a b ≡ Ordering.eq → a ≡ b
unfolding order
eq_of_order [] [] h = refl
eq_of_order [] (y ∷ b) h = absurd (cc h)
eq_of_order (x ∷ a) [] h = absurd (cc h)
eq_of_order (x ∷ a) (y ∷ b) h =
    let e : x ≡ y = ground (arith, h) in
    let later = eq_of_order a b (ground (arith, h)) in cc (e, later)

pub order_flip : (a b : Word) → order a b ≡ Ordering.gt → order b a ≡ Ordering.lt
unfolding order
order_flip [] [] h = absurd (cc h)
order_flip [] (y ∷ b) h = absurd (cc h)
order_flip (x ∷ a) [] h = refl
order_flip (x ∷ a) (y ∷ b) h = ground (arith, h, order_flip a b)

pub order_trans :
    (a b c : Word) → order a b ≡ Ordering.lt → order b c ≡ Ordering.lt → order a c ≡ Ordering.lt
unfolding order
order_trans [] [] c h k = absurd (cc h)
order_trans [] (y ∷ b) [] h k = absurd (cc k)
order_trans [] (y ∷ b) (z ∷ c) h k = refl
order_trans (x ∷ a) [] c h k = absurd (cc h)
order_trans (x ∷ a) (y ∷ b) [] h k = absurd (cc k)
order_trans (x ∷ a) (y ∷ b) (z ∷ c) h k = ground (arith, h, k, order_trans a b c)

Ordering-cases : (o : Ordering) → (o ≡ Ordering.lt) ⊎ ((o ≡ Ordering.eq) ⊎ (o ≡ Ordering.gt))
Ordering-cases Ordering.lt = inl refl
Ordering-cases Ordering.eq = inr (inl refl)
Ordering-cases Ordering.gt = inr (inr refl)

module _ {ℓ} {V : Type ℓ} where
  found_twice : (o : Ordering) (v w : V) (x : Option V) → found o v x ≡ found o v (found o w x)
  found_twice Ordering.lt v w x = refl
  found_twice Ordering.eq v w x = refl
  found_twice Ordering.gt v w x = refl

  found_swap :
      (o q : Ordering) (v w : V) (x : Option V)
      → (o ≡ Ordering.eq → q ≡ Ordering.gt)
      → found q w (found o v x) ≡ found o v (found q w x)
  found_swap Ordering.lt q v w x h = refl
  found_swap Ordering.gt q v w x h = refl
  found_swap Ordering.eq q v w x h = rw (h refl) refl

  pub find-assign :
      (k : Word) (v : V) (m : List (Word × V)) (n : Word)
      → find (assign k v m) n ≡ found (order n k) v (find m n)
  unfolding find assign
  find-assign k v [] n = refl
  find-assign k v ((j, w) ∷ m) n = elim (Ordering-cases (order k j)) [
    | inl e ↦ rw e refl
    | inr (inl e) ↦ rw e (rw (eq_of_order k j e) (found_twice (order n j) v w (find m n)))
    | inr (inr e) ↦
        rw (e, find-assign k v m n)
          (found_swap (order n k) (order n j) v w (find m n) λ same. rw (eq_of_order n k same) e)
  ]

  -- The keys of a map in order, all above k.
  abbrev pub IsAbove : Word → List (Word × V) → Type 0
  IsAbove k [] = Unit
  IsAbove k ((j, w) ∷ m) = (order k j ≡ Ordering.lt) × IsAbove k m

  abbrev pub IsSorted : List (Word × V) → Type 0
  IsSorted [] = Unit
  IsSorted ((k, v) ∷ m) = IsAbove k m × IsSorted m

  IsAbove-lower :
      (a b : Word) (m : List (Word × V)) → order a b ≡ Ordering.lt → IsAbove b m → IsAbove a m
  IsAbove-lower a b [] h all = tt
  IsAbove-lower a b ((j, w) ∷ m) h (k, all) = (order_trans a b j h k, IsAbove-lower a b m h all)

  assign-IsAbove :
      (a k : Word) (v : V) (m : List (Word × V))
      → order a k ≡ Ordering.lt
      → IsAbove a m
      → IsAbove a (assign k v m)
  unfolding assign
  assign-IsAbove a k v [] h all = (h, tt)
  assign-IsAbove a k v ((j, w) ∷ m) h (first, all) = elim (Ordering-cases (order k j)) [
    | inl e ↦ rw e (h, (first, all))
    | inr (inl e) ↦ rw e (h, all)
    | inr (inr e) ↦ rw e (first, assign-IsAbove a k v m h all)
  ]

  pub assign-IsSorted :
      (k : Word) (v : V) (m : List (Word × V)) → IsSorted m → IsSorted (assign k v m)
  unfolding assign
  assign-IsSorted k v [] sorted = (tt, tt)
  assign-IsSorted k v ((j, w) ∷ m) (all, sorted) = elim (Ordering-cases (order k j)) [
    | inl e ↦ rw e ((e, IsAbove-lower k j m e all), (all, sorted))
    | inr (inl e) ↦ rw e (rw (eq_of_order k j e) all, sorted)
    | inr (inr e) ↦
        rw e (assign-IsAbove j k v m (order_flip k j e) all, assign-IsSorted k v m sorted)
  ]

  -- What stands above a key does not hold it.
  pub find-IsAbove : (k : Word) (m : List (Word × V)) → IsAbove k m → find m k ≡ none
  unfolding find
  find-IsAbove k [] all = refl
  find-IsAbove k ((j, w) ∷ m) (h, all) = rw (h, find-IsAbove k m all) refl
