-- ===== src/Items/Links.antt =====
-- Forward and backward links of a list, under writes to the store.
use pcut.Common.{◌≡◌, ◌∙◌, true, List, [], ◌∷◌, ◌++◌, arith, some, has}
use pcut.Item.{Addr, Ptr, Store}
use pcut.Items.Walk.{Chain}

-- The `previous` pointers of the list lead back to `p`.
abbrev pub Back : Store → Ptr → List Addr → Type 0
Back h p [] = Unit {0}
Back h p (a ∷ xs) = ((h a).previous ≡ p) × Back h (some a) xs

module _ (g h : Store) where
  pub Chain-cong :
      (p : Ptr) (xs : List Addr)
      → ((x : Addr) → has x xs ≡ true → (g x).next ≡ (h x).next)
      → Chain h p xs
      → Chain g p xs
  Chain-cong p [] e c = c
  Chain-cong p (a ∷ xs) e c =
      (c.0, rw (e a (ground arith)) (Chain-cong (h a).next xs (λ x m. e x (ground arith)) c.1))

  pub Back-cong :
      (p : Ptr) (xs : List Addr)
      → ((x : Addr) → has x xs ≡ true → (g x).previous ≡ (h x).previous)
      → Back h p xs
      → Back g p xs
  Back-cong p [] e c = tt
  Back-cong p (a ∷ xs) e c =
      (e a (ground arith) ∙ c.0, Back-cong (some a) xs (λ x m. e x (ground arith)) c.1)

  -- The last item `z` of a chain is linked on to `ys`.
  pub Chain-append :
      (p q : Ptr) (xs : List Addr) (z : Addr) (ys : List Addr)
      → ((x : Addr) → has x xs ≡ true → (g x).next ≡ (h x).next)
      → (g z).next ≡ q
      → Chain g q ys
      → Chain h p (xs ++ z ∷ [])
      → Chain g p (xs ++ z ∷ ys)
  Chain-append p q [] z ys e f d c = (c.0, rw f d)
  Chain-append p q (a ∷ xs) z ys e f d c = (
    c.0,
    rw (e a (ground arith)) (Chain-append (h a).next q xs z ys (λ x m. e x (ground arith)) f d c.1),
  )

  pub Back-append :
      (p : Ptr) (xs : List Addr) (z : Addr) (ys : List Addr)
      → ((x : Addr) → has x (xs ++ z ∷ []) ≡ true → (g x).previous ≡ (h x).previous)
      → Back g (some z) ys
      → Back h p (xs ++ z ∷ [])
      → Back g p (xs ++ z ∷ ys)
  Back-append p [] z ys e d c = (e z (ground arith) ∙ c.0, d)
  Back-append p (a ∷ xs) z ys e d c =
      (e a (ground arith) ∙ c.0, Back-append (some a) xs z ys (λ x m. e x (ground arith)) d c.1)
