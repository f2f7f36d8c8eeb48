-- ===== src/Transport/Ws/Table/Entries.antt =====
-- transport/ws/server.go: the entries of the table of sessions.
use rtvbp_go.Common.{
  ℕ, ◌==◌, ◌≡◌, ◌≢◌, refl, Bool, true, false, ◌||◌, String, List, [], ◌∷◌, ◌++◌, some, arith,
  eq_iff,
}
use rtvbp_go.Common.Assoc.{Assoc, lookup, delete}
use rtvbp_go.Transport.Ws.Table.{values}

abbrev pub elem : ℕ → List ℕ → Bool
elem n [] = false
elem n (m ∷ ms) = m == n || elem n ms

pub elem-append : (n : ℕ) (xs ys : List ℕ) → elem n (xs ++ ys) ≡ elem n xs || elem n ys
elem-append n [] ys = refl
elem-append n (x ∷ xs) ys = ground (arith, elem-append n xs ys)

-- The ids of different connections differ.
abbrev pub Fresh : (ℕ → String) → Type 0
Fresh ids = (m n : ℕ) → ids m ≡ ids n → m ≡ n

-- Each connection stands under its id.
abbrev pub Keyed : (ℕ → String) → Assoc ℕ → Type 0
Keyed ids [] = Unit
Keyed ids ((k, n) ∷ m) = (k ≡ ids n) × Keyed ids m

module _ (ids : ℕ → String) where
  pub delete-Keyed : (k : String) (m : Assoc ℕ) → Keyed ids m → Keyed ids (delete k m)
  unfolding delete
  delete-Keyed k [] h = h
  delete-Keyed k ((j, n) ∷ m) (here, rest) = ground (arith, delete-Keyed k m rest)

  pub elem-delete :
      (n i : ℕ) (m : Assoc ℕ)
      → Keyed ids m
      → elem n (values (delete (ids i) m)) ≡ true
      → (elem n (values m) ≡ true) × (n ≢ i)
  unfolding delete
  elem-delete n i [] h e = absurd cc
  elem-delete n i ((j, x) ∷ m) (here, rest) e =
      ground (arith, elem-delete n i m rest, eq_iff j (ids i))

pub elem-lookup :
    (k : String) (n : ℕ) (m : Assoc ℕ) → lookup k m ≡ some n → elem n (values m) ≡ true
unfolding lookup
elem-lookup k n [] h = absurd cc
elem-lookup k n ((j, x) ∷ m) h = ground (arith, elem-lookup k n m)
