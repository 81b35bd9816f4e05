-- ===== src/Sorting/Members.antt =====
-- Rearrangements of a list, carried through what the program makes of it.
use mathlib.Core.Path.{subst₂}
use mathlib.Core.Logic.{∥∥₁_elim}
use mathlib.Core.List.{append_assoc, perm_append_comm, Perm, Permᴰ, Perm-prop}
use mathlib.Core.List.Perm
use native.Mathlib.Nat.{ℕ_set}
use aequa_network.Base.{◌≡◌, subst, List, ◌∷◌, ◌++◌, length, arith}

-- Lists that are put together member by member are rearranged with their members.
pieces_perm {ℓ κ} :
    {A : Type ℓ} {B : Type κ} (F : A → List B) (G : List A → List B)
    → ((a : A) (l : List A) → G (a ∷ l) ≡ F a ++ G l)
    → {l r : List A} → Permᴰ l r
    → Perm (G l) (G r)
pieces_perm F G step Permᴰ.nil = Perm.rfl
pieces_perm F G step (Permᴰ.cons {a} {l₁ = l} {l₂ = r} e p) =
    subst (λ b. Perm (G (a ∷ l)) (G (b ∷ r))) e
      (rw (step a l, step a r) (Perm.append_left (F a) (pieces_perm F G step p)))
pieces_perm F G step (Permᴰ.swap {a} {b} {l} e f) =
    subst₂ (λ u v. Perm (G (a ∷ b ∷ l)) (G (v ∷ u ∷ l))) e f
      (rw (step a (b ∷ l), step b l, step b (a ∷ l), step a l)
        (rw (← append_assoc (F a) (F b) (G l), ← append_assoc (F b) (F a) (G l))
          (Perm.append_right (G l) (perm_append_comm (F a) (F b)))))
pieces_perm F G step (Permᴰ.trans p q) =
    Perm.trans (pieces_perm F G step p) (pieces_perm F G step q)

pub perm_pieces {ℓ κ} :
    {A : Type ℓ} {B : Type κ} (F : A → List B) (G : List A → List B)
    → ((a : A) (l : List A) → G (a ∷ l) ≡ F a ++ G l)
    → {l r : List A} → Perm l r
    → Perm (G l) (G r)
perm_pieces F G step p = ∥∥₁_elim p Perm-prop (pieces_perm F G step)

lengths_eq {ℓ} : {A : Type ℓ} {l r : List A} → Permᴰ l r → length l ≡ length r
lengths_eq Permᴰ.nil = omega arith
lengths_eq (Permᴰ.cons e p) = omega (arith, lengths_eq p)
lengths_eq (Permᴰ.swap e f) = omega arith
lengths_eq (Permᴰ.trans p q) = omega (arith, lengths_eq p, lengths_eq q)

pub length-perm {ℓ} : {A : Type ℓ} {l r : List A} → Perm l r → length l ≡ length r
length-perm {l} {r} p = ∥∥₁_elim p (ℕ_set (length l) (length r)) lengths_eq
