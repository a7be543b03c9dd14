-- ===== src/Store.antt =====
-- The database as the services use it through gorm, which is not part of the repository: a table is
-- the list of its rows in the order in which `First` meets them, and a `Table` holds the statements as
-- functions with what gorm documents of them. A statement that fails changes nothing.
pub mod Rows
pub mod Memory
pub mod Batch
use ssoc_broker.Base.{
  ℕ, ◌≡◌, refl, ap, arith, ◌≢◌, ◌⊎◌, inl, inr, List, [], ◌∷◌, ◌++◌, Option, none, some, Bool, true,
  false, if◌then◌else◌, Text,
}
use ssoc_broker.Base.Int.{ℤ}

-- `missing` is gorm.ErrRecordNotFound.
pub data Result {ℓ} (A : Type ℓ) : Type ℓ where
  ok : A → Result A
  missing : Result A
  failed : Text → Result A

pub Result-cases {ℓ} :
    {A : Type ℓ} (r : Result A)
    → ((a : A) × (r ≡ ok a)) ⊎ ((r ≡ missing) ⊎ ((e : Text) × (r ≡ failed e)))
Result-cases (ok a) = inl (a, refl)
Result-cases missing = inr (inl refl)
Result-cases (failed e) = inr (inr (e, refl))

module _ {R : Type 0} where
  abbrev pub find : (R → Bool) → List R → Option R
  find p [] = none
  find p (r ∷ t) = if p r then some r else find p t

  abbrev pub update_where : (R → Bool) → (R → R) → List R → List R
  update_where p f [] = []
  update_where p f (r ∷ t) = (if p r then f r else r) ∷ update_where p f t

  abbrev pub delete_where : (R → Bool) → List R → List R
  delete_where p [] = []
  delete_where p (r ∷ t) = let rest = delete_where p t in if p r then rest else r ∷ rest

  -- One more row, anywhere.
  pub data Inserted (r : R) (t t' : List R) : Type 0 where
    between : (xs ys : List R) → t ≡ xs ++ ys → t' ≡ xs ++ (r ∷ ys) → Inserted r t t'

-- `with_id` fills in the key that the database assigns.
pub record Table {R : Type 0} (with_id : ℤ → R → R) : Type 0 where
  pub first : (R → Bool) → List R → Result R
  pub create : R → List R → Result (R × List R)
  pub update : (R → Bool) → (R → R) → List R → Result (ℕ × List R)
  pub delete : (R → Bool) → List R → Result (List R)
  pub first_ok : (p : R → Bool) (t : List R) (r : R) → first p t ≡ ok r → find p t ≡ some r
  pub first_missing : (p : R → Bool) (t : List R) → first p t ≡ missing → find p t ≡ none
  pub create_ok :
      (r r' : R) (t t' : List R)
      → create r t ≡ ok (r', t')
      → (n : ℤ) × (r' ≡ with_id n r) × Inserted r' t t'
  pub update_ok :
      (p : R → Bool) (f : R → R) (n : ℕ) (t t' : List R)
      → update p f t ≡ ok (n, t')
      → t' ≡ update_where p f t
  -- The count of affected rows: 0 if the condition fits no row, and not 0 if it fits one and each
  -- row that it fits is changed.
  pub update_none :
      (p : R → Bool) (f : R → R) (n : ℕ) (t t' : List R)
      → update p f t ≡ ok (n, t')
      → find p t ≡ none
      → n ≡ 0
  pub update_some :
      (p : R → Bool) (f : R → R) (n : ℕ) (t t' : List R) (r : R)
      → ((x : R) → p x ≡ true → f x ≢ x)
      → update p f t ≡ ok (n, t')
      → find p t ≡ some r
      → n ≢ 0
  pub delete_ok : (p : R → Bool) (t t' : List R) → delete p t ≡ ok t' → t' ≡ delete_where p t

-- A handler runs on the state `S` and ends with a result; what it wrote before an error stays.
abbrev pub M : Type 0 → Type 0 → Type 0
M S A = S → S × Result A

infixl 5 ◌>>=◌ ◌>>◌
abbrev pub ◌>>=◌ : {S A B : Type 0} → M S A → (A → M S B) → M S B
◌>>=◌ m f s =
    let (s', r) = m s in
    elim r [ ok a ↦ f a s' | missing ↦ (s', missing) | failed e ↦ (s', failed e) ]

abbrev pub ◌>>◌ : {S A B : Type 0} → M S A → M S B → M S B
m >> k = m >>= λ _. k

abbrev pub return : {S A : Type 0} → A → M S A
return a s = (s, ok a)

-- A run of two steps that ends well took both.
pub >>=-eq-ok :
    {S A B : Type 0} (m : M S A) (f : A → M S B) (s s' : S) {b : B}
    → (m >>= f) s ≡ (s', ok b)
    → (s1 : S) × (a : A) × (m s ≡ (s1, ok a)) × (f a s1 ≡ (s', ok b))
>>=-eq-ok {S} {A} {B} m f s s' {b} e = elim (Result-cases (m s).1) [
  | inl (a, q) ↦ ((m s).0, a, ap (λ r. ((m s).0, r)) q, ground arith)
  | inr (inl q) ↦ absurd (ground arith)
  | inr (inr (x, q)) ↦ absurd (ground arith)
]
