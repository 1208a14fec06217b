-- ===== src/Prelude/Sort.antt =====
-- Python's `sorted`, as a stable insertion sort, and what it gives for its last element.
use Prim.Native.Nat.{ℕ, ◌≤◌}
use mathlib.Core.Path.{◌≡◌, refl, sym, ap, subst}
use mathlib.Core.Logic.{◌⊎◌, inl, inr}
use mathlib.Core.Bool.{Bool, true, false}
use mathlib.Core.Option.{none, some, some-injective}
use mathlib.Core.List.{List, [], ◌∷◌, Memᴰ}
use native.Mathlib.Omega.{arith}
use offer_master.Prelude.Tests.{if◌then◌else◌, Bool-cases}
use offer_master.Prelude.Lists.{All, All-mem, get_last?, Memᴰ-cons}

mem-if {ℓ} :
    {A : Type ℓ} {a : A} (b : Bool) {xs ys : List A}
    → Memᴰ a (if b then xs else ys)
    → Memᴰ a xs ⊎ Memᴰ a ys
mem-if true m = inl m
mem-if false m = inr m

if_mem {ℓ} :
    {A : Type ℓ} {a : A} (b : Bool) {xs ys : List A}
    → Memᴰ a xs
    → Memᴰ a ys
    → Memᴰ a (if b then xs else ys)
if_mem true m n = m
if_mem false m n = n

module _ {ℓ} {A : Type ℓ} (le : A → A → Bool) where
  unfoldable pub insert_sorted : A → List A → List A
  insert_sorted x [] = x ∷ []
  insert_sorted x (y ∷ ys) = if le x y then x ∷ y ∷ ys else y ∷ insert_sorted x ys

  unfoldable pub sorted : List A → List A
  unfolding insert_sorted
  sorted [] = []
  sorted (x ∷ xs) = insert_sorted x (sorted xs)

  mem-insert_sorted :
      {a : A} (x : A) (ys : List A) → Memᴰ a (insert_sorted x ys) → (a ≡ x) ⊎ Memᴰ a ys
  unfolding insert_sorted
  mem-insert_sorted x [] m = Memᴰ-cons m
  mem-insert_sorted x (y ∷ ys) m = elim (mem-if (le x y) m) [
    | inl first ↦ Memᴰ-cons first
    | inr later ↦ elim (Memᴰ-cons later) [
      | inl e ↦ inr (Memᴰ.head e)
      | inr t ↦ elim (mem-insert_sorted x ys t) [ inl e ↦ inl e | inr u ↦ inr (Memᴰ.tail u) ]
    ]
  ]

  insert_sorted-mem :
      {a : A} (x : A) (ys : List A) → (a ≡ x) ⊎ Memᴰ a ys → Memᴰ a (insert_sorted x ys)
  unfolding insert_sorted
  insert_sorted-mem x [] (inl e) = Memᴰ.head e
  insert_sorted-mem x [] (inr m) = Memᴰ.tail m
  insert_sorted-mem x (y ∷ ys) (inl e) =
      if_mem (le x y) (Memᴰ.head e) (Memᴰ.tail (insert_sorted-mem x ys (inl e)))
  insert_sorted-mem x (y ∷ ys) (inr (Memᴰ.head e)) =
      if_mem (le x y) (Memᴰ.tail (Memᴰ.head e)) (Memᴰ.head e)
  insert_sorted-mem x (y ∷ ys) (inr (Memᴰ.tail m)) =
      if_mem (le x y) (Memᴰ.tail (Memᴰ.tail m)) (Memᴰ.tail (insert_sorted-mem x ys (inr m)))

  -- Sorting neither adds nor loses an element.
  pub mem-sorted : {a : A} (xs : List A) → Memᴰ a (sorted xs) → Memᴰ a xs
  unfolding sorted
  mem-sorted [] m = m
  mem-sorted (x ∷ xs) m = elim (mem-insert_sorted x (sorted xs) m) [
    | inl e ↦ Memᴰ.head e
    | inr t ↦ Memᴰ.tail (mem-sorted xs t)
  ]

  pub sorted-mem : {a : A} (xs : List A) → Memᴰ a xs → Memᴰ a (sorted xs)
  unfolding sorted
  sorted-mem [] m = m
  sorted-mem (x ∷ xs) (Memᴰ.head e) = insert_sorted-mem x (sorted xs) (inl e)
  sorted-mem (x ∷ xs) (Memᴰ.tail m) = insert_sorted-mem x (sorted xs) (inr (sorted-mem xs m))

  -- The test never puts an element of greater rank in front.
  module _ (rank : A → ℕ) (le-rank : (x y : A) → le x y ≡ true → rank x ≤ rank y)
      (not_le-rank : (x y : A) → le x y ≡ false → rank y ≤ rank x) where
    abbrev Ascending : List A → Type 0
    Ascending [] = Unit
    Ascending (x ∷ xs) = All (λ y. rank x ≤ rank y) xs × Ascending xs

    All-weaken :
        (x y : A) (ys : List A)
        → rank x ≤ rank y
        → All (λ z. rank y ≤ rank z) ys
        → All (λ z. rank x ≤ rank z) ys
    All-weaken x y [] h a = tt
    All-weaken x y (z ∷ zs) h (first, rest) = (omega arith, All-weaken x y zs h rest)

    All-insert_sorted :
        (P : A → Type 0) (x : A) (ys : List A) → P x → All P ys → All P (insert_sorted x ys)
    unfolding insert_sorted
    All-insert_sorted P x [] p a = (p, tt)
    All-insert_sorted P x (y ∷ ys) p (q, a) = elim (Bool-cases (le x y)) [
      | inl e ↦ rw e (p, (q, a))
      | inr e ↦ rw e (q, All-insert_sorted P x ys p a)
    ]

    insert_sorted-Ascending : (x : A) (ys : List A) → Ascending ys → Ascending (insert_sorted x ys)
    unfolding insert_sorted
    insert_sorted-Ascending x [] h = (tt, tt)
    insert_sorted-Ascending x (y ∷ ys) (above, h) = elim (Bool-cases (le x y)) [
      | inl e ↦ rw e ((le-rank x y e, All-weaken x y ys (le-rank x y e) above), (above, h))
      | inr e ↦ rw e (
        All-insert_sorted (λ z. rank y ≤ rank z) x ys (not_le-rank x y e) above,
        insert_sorted-Ascending x ys h,
      )
    ]

    sorted-Ascending : (xs : List A) → Ascending (sorted xs)
    unfolding sorted
    sorted-Ascending [] = tt
    sorted-Ascending (x ∷ xs) = insert_sorted-Ascending x (sorted xs) (sorted-Ascending xs)

    last_of_Ascending :
        (xs : List A) {m : A}
        → Ascending xs
        → get_last? xs ≡ some m
        → Memᴰ m xs × All (λ x. rank x ≤ rank m) xs
    last_of_Ascending [] h e = cc
    last_of_Ascending (x ∷ []) {m} h e =
        let same : x ≡ m = some-injective x m e in
        (Memᴰ.head (sym same), (omega (arith, ap rank same), tt))
    last_of_Ascending (x ∷ y ∷ xs) (above, h) e =
        let (m, below) = last_of_Ascending (y ∷ xs) h e in
        (Memᴰ.tail m, (omega (arith, above.0, below.0), below))

    -- The last of the sorted list is one of the elements, and no element has a greater rank.
    pub last-sorted :
        (xs : List A) {m : A}
        → get_last? (sorted xs) ≡ some m
        → Memᴰ m xs × ((x : A) → Memᴰ x xs → rank x ≤ rank m)
    last-sorted xs {m} e =
        let (found, below) = last_of_Ascending (sorted xs) (sorted-Ascending xs) e in
        (
          mem-sorted xs found,
          λ x at. All-mem (λ z. rank z ≤ rank m) (sorted xs) below (sorted-mem xs at),
        )

  last_nil : (xs : List A) → get_last? xs ≡ none → xs ≡ []
  last_nil [] e = refl
  last_nil (x ∷ []) e = cc
  last_nil (x ∷ y ∷ xs) e = cc (last_nil (y ∷ xs) e)

  pub sorted-nil : (xs : List A) → get_last? (sorted xs) ≡ none → xs ≡ []
  sorted-nil [] e = refl
  sorted-nil (x ∷ xs) e =
      let nowhere : Memᴰ x [] =
        subst (Memᴰ x) (last_nil (sorted (x ∷ xs)) e) (sorted-mem (x ∷ xs) (Memᴰ.head refl)) in
      elim nowhere [ ]
