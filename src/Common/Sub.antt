-- ===== src/Common/Sub.antt =====
-- Lists that keep some elements of another one, in its order.
use trading_terminal_cluster.Common.{ℕ, zero, suc, List, [], ◌∷◌, ◌++◌, ◌≡◌, refl, ap}
use trading_terminal_cluster.Common.Lists.{drop}

pub data Sub {ℓ} {A : Type ℓ} : List A → List A → Type ℓ where
  done : Sub [] []
  keep : {x : A} {xs ys : List A} → Sub xs ys → Sub (x ∷ xs) (x ∷ ys)
  skip : {x : A} {xs ys : List A} → Sub xs ys → Sub xs (x ∷ ys)

module _ {ℓ} {A : Type ℓ} where
  pub Sub-refl : (xs : List A) → Sub xs xs
  Sub-refl [] = done
  Sub-refl (x ∷ xs) = keep (Sub-refl xs)

  pub Sub-trans : {ys zs : List A} → Sub ys zs → {xs : List A} → Sub xs ys → Sub xs zs
  Sub-trans done s = s
  Sub-trans (keep t) (keep s) = keep (Sub-trans t s)
  Sub-trans (keep t) (skip s) = skip (Sub-trans t s)
  Sub-trans (skip t) s = skip (Sub-trans t s)

  pub Sub-append : {xs ys us vs : List A} → Sub xs ys → Sub us vs → Sub (xs ++ us) (ys ++ vs)
  Sub-append done t = t
  Sub-append (keep s) t = keep (Sub-append s t)
  Sub-append (skip s) t = skip (Sub-append s t)

  pub Sub-drop : (n : ℕ) (xs : List A) → Sub (drop n xs) xs
  Sub-drop zero xs = Sub-refl xs
  Sub-drop (suc n) [] = done
  Sub-drop (suc n) (x ∷ xs) = skip (Sub-drop n xs)

  pub append_assoc : (xs ys zs : List A) → (xs ++ ys) ++ zs ≡ xs ++ (ys ++ zs)
  append_assoc [] ys zs = refl
  append_assoc (x ∷ xs) ys zs = ap (◌∷◌ x) (append_assoc xs ys zs)

  pub append_nil : (xs : List A) → xs ++ [] ≡ xs
  append_nil [] = refl
  append_nil (x ∷ xs) = ap (◌∷◌ x) (append_nil xs)
