-- ===== src/Common/Pairwise.antt =====
-- Two lists whose elements are related one by one.
use trading_terminal_cluster.Common.{List, [], ◌∷◌, map}

-- Two lists of one length whose elements are related pairwise.
pub data Pairwise {A B : Type 0} (P : A → B → Type 0) : List A → List B → Type 0 where
  done : Pairwise P [] []
  both :
      {x : A} {y : B} {xs : List A} {ys : List B}
      → P x y
      → Pairwise P xs ys
      → Pairwise P (x ∷ xs) (y ∷ ys)

pub Pairwise-unmap :
    {A D B : Type 0} {P : A → B → Type 0} {Q : D → B → Type 0} (f : D → A)
    → ((d : D) (b : B) → P (f d) b → Q d b)
    → (ds : List D) {bs : List B} → Pairwise P (map f ds) bs
    → Pairwise Q ds bs
Pairwise-unmap f h [] done = done
Pairwise-unmap f h (d ∷ ds) (both p ps) = both (h d _ p) (Pairwise-unmap f h ds ps)
