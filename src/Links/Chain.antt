-- ===== src/Links/Chain.antt =====
-- The links of src/lib/kernel/list.c as a sequence of addresses.
use csed.Common.{ℕ, ◌+◌, ◌≤◌, ◌≡◌, ◌≢◌, List, [], ◌∷◌, ◌++◌, arith, count}
use csed.Links.{Heap}

-- From `a` the links lead through the elements of `xs` to `b`, and back.
abbrev pub Chain : Heap → ℕ → List ℕ → ℕ → Type 0
Chain m a [] b = (m.next a ≡ b) × (m.prev b ≡ a)
Chain m a (x ∷ xs) b = (m.next a ≡ x) × (m.prev x ≡ a) × Chain m x xs b

-- The first element of `xs`, or `b`.
abbrev pub first : List ℕ → ℕ → ℕ
first [] b = b
first (x ∷ xs) b = x

-- The last element of `xs`, or `a`.
abbrev pub last : ℕ → List ℕ → ℕ
last a [] = a
last a (x ∷ xs) = last x xs

pub chain_next : (m : Heap) (a : ℕ) (xs : List ℕ) (b : ℕ) → Chain m a xs b → m.next a ≡ first xs b
chain_next m a [] b c = c.0
chain_next m a (x ∷ xs) b c = c.0

pub chain_prev : (m : Heap) (a : ℕ) (xs : List ℕ) (b : ℕ) → Chain m a xs b → m.prev b ≡ last a xs
chain_prev m a [] b c = c.1
chain_prev m a (x ∷ xs) b c = chain_prev m x xs b c.2

pub chain_join :
    (m : Heap) (a : ℕ) (xs : List ℕ) (y : ℕ) (ys : List ℕ) (b : ℕ)
    → Chain m a xs y
    → Chain m y ys b
    → Chain m a (xs ++ y ∷ ys) b
chain_join m a [] y ys b c d = (c.0, c.1, d)
chain_join m a (x ∷ xs) y ys b c d = (c.0, c.1, chain_join m x xs y ys b c.2 d)

pub chain_split :
    (m : Heap) (a : ℕ) (xs : List ℕ) (y : ℕ) (ys : List ℕ) (b : ℕ)
    → Chain m a (xs ++ y ∷ ys) b
    → Chain m a xs y × Chain m y ys b
chain_split m a [] y ys b c = ((c.0, c.1), c.2)
chain_split m a (x ∷ xs) y ys b c = let (d, e) = chain_split m x xs y ys b c.2 in ((c.0, c.1, d), e)

-- A chain stays if the members that it is made of stay.
pub chain_same :
    (m m' : Heap) (a : ℕ) (xs : List ℕ) (b : ℕ)
    → ((p : ℕ) → 1 ≤ count p (a ∷ xs) → m'.next p ≡ m.next p)
    → ((p : ℕ) → 1 ≤ count p (xs ++ b ∷ []) → m'.prev p ≡ m.prev p)
    → Chain m a xs b
    → Chain m' a xs b
chain_same m m' a [] b n p c = (ground (arith, n a, c), ground (arith, p b, c))
chain_same m m' a (x ∷ xs) b n p c = (
  ground (arith, n a, c.0),
  ground (arith, p x, c.1),
  chain_same m m' x xs b (λ q h. n q (ground (arith, h))) (λ q h. p q (ground (arith, h))) c.2,
)

-- The chain behind its first element.
abbrev pub Rest : Heap → List ℕ → ℕ → Type 0
Rest m [] b = Unit {0}
Rest m (y ∷ ys) b = Chain m y ys b

pub chain_cut :
    (m : Heap) (a : ℕ) (xs ys : List ℕ) (b : ℕ)
    → Chain m a (xs ++ ys) b
    → Chain m a xs (first ys b) × Rest m ys b
chain_cut m a [] [] b c = (c, tt)
chain_cut m a [] (y ∷ ys) b c = ((c.0, c.1), c.2)
chain_cut m a (x ∷ xs) ys b c = let (d, e) = chain_cut m x xs ys b c.2 in ((c.0, c.1, d), e)

pub chain_paste :
    (m : Heap) (a : ℕ) (xs ys : List ℕ) (b : ℕ)
    → Chain m a xs (first ys b)
    → Rest m ys b
    → Chain m a (xs ++ ys) b
chain_paste m a [] [] b c r = c
chain_paste m a [] (y ∷ ys) b c r = (c.0, c.1, r)
chain_paste m a (x ∷ xs) ys b c r = (c.0, c.1, chain_paste m x xs ys b c.2 r)

pub last_mem : (a : ℕ) (xs : List ℕ) → 1 ≤ count (last a xs) (a ∷ xs)
last_mem a [] = ground arith
last_mem a (x ∷ xs) = ground (arith, last_mem x xs)

pub first_mem : (ys : List ℕ) (b : ℕ) → 1 ≤ count (first ys b) (ys ++ b ∷ [])
first_mem [] b = ground arith
first_mem (y ∷ ys) b = ground arith

-- A chain that ends elsewhere.
pub chain_end :
    (m m' : Heap) (a : ℕ) (xs : List ℕ) (b b' : ℕ)
    → ((p : ℕ) → count p (a ∷ xs) ≤ 1)
    → ((p : ℕ) → 1 ≤ count p (a ∷ xs) → p ≢ last a xs → m'.next p ≡ m.next p)
    → ((p : ℕ) → 1 ≤ count p xs → m'.prev p ≡ m.prev p)
    → m'.next (last a xs) ≡ b'
    → m'.prev b' ≡ last a xs
    → Chain m a xs b
    → Chain m' a xs b'
chain_end m m' a [] b b' u n p e f c = (e, f)
chain_end m m' a (x ∷ xs) b b' u n p e f c = (
  ground (arith, n a, c.0, u a, last_mem x xs, u (last x xs)),
  ground (arith, p x, c.1),
  chain_end m m' x xs b b' (λ q. ground (arith, u q)) (λ q h g. n q (ground (arith, h)) g)
      (λ q h. p q (ground (arith, h))) e f c.2,
)

-- A chain that starts elsewhere.
pub chain_start :
    (m m' : Heap) (e : ℕ) (ys : List ℕ) (b : ℕ)
    → ((p : ℕ) → count p (ys ++ b ∷ []) ≤ 1)
    → ((p : ℕ) → 1 ≤ count p ys → m'.next p ≡ m.next p)
    → ((p : ℕ) → 1 ≤ count p (ys ++ b ∷ []) → p ≢ first ys b → m'.prev p ≡ m.prev p)
    → m'.next e ≡ first ys b
    → m'.prev (first ys b) ≡ e
    → Rest m ys b
    → Chain m' e ys b
chain_start m m' e [] b u n p f g r = (f, g)
chain_start m m' e (y ∷ ys) b u n p f g r = (
  f,
  g,
  chain_same m m' y ys b n
      (λ q h. p q (ground (arith, h)) (λ t. absurd (ground (arith, h, t, u y)))) r,
)

pub chain-Rest : (m : Heap) (e : ℕ) (ys : List ℕ) (b : ℕ) → Chain m e ys b → Rest m ys b
chain-Rest m e [] b c = tt
chain-Rest m e (y ∷ ys) b c = c.2

pub Rest-same :
    (m m' : Heap) (ys : List ℕ) (b : ℕ)
    → ((p : ℕ) → count p (ys ++ b ∷ []) ≤ 1)
    → ((p : ℕ) → 1 ≤ count p ys → m'.next p ≡ m.next p)
    → ((p : ℕ) → 1 ≤ count p (ys ++ b ∷ []) → p ≢ first ys b → m'.prev p ≡ m.prev p)
    → Rest m ys b
    → Rest m' ys b
Rest-same m m' [] b u n p r = tt
Rest-same m m' (y ∷ ys) b u n p r =
    chain_same m m' y ys b n
      (λ q h. p q (ground (arith, h)) (λ t. absurd (ground (arith, h, t, u y)))) r

-- The list at `list` has the elements `xs`: distinct addresses, none of them NULL.
pub record IsList (m : Heap) (list : ℕ) (xs : List ℕ) : Type 0 where
  pub chain : Chain m list xs (list + 8)
  pub head_prev : m.prev list ≡ 0
  pub tail_next : m.next (list + 8) ≡ 0
  pub distinct : (p : ℕ) → count p (list ∷ (xs ++ (list + 8) ∷ [])) ≤ 1
  pub not_null : count 0 (list ∷ xs) ≡ 0
