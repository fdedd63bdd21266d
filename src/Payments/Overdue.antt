-- ===== src/Payments/Overdue.antt =====
-- Overdue invoices in the table that internal/zcash/expiry_worker.go sweeps.
use enchanted_proxy.Payments.Expiry.{is_overdue}
use mathlib.Core.Option.{some-injective}
use enchanted_proxy.Prelude.{
  text_eq_sym, lookup-insert, subst, take, text_eq_iff, insert, lookup, tally, select, ℕ, zero, suc,
  ◌+◌, Bool, true, false, List, [], ◌∷◌, none, some, Text, text_eq, if◌then◌else◌, ◌≡◌, refl, sym,
  ap, ◌∙◌, inl, inr, arith, Bool-cases, text_key, All,
}
use enchanted_proxy.Payments.Store.{ZcashInvoice}

abbrev pub Invoices : Type 0
Invoices = List (Text × ZcashInvoice)

-- Every key stands once.
abbrev pub Unique : Invoices → Type 0
Unique [] = Unit
Unique ((id, i) ∷ m) = (lookup id m ≡ none) × Unique m

-- These rows stand in the table and are overdue.
abbrev pub Due : ℕ → Invoices → Invoices → Type 0
Due now rows m = All (λ row. (lookup row.0 m ≡ some row.1) × (is_overdue now row ≡ true)) rows

module _ (now : ℕ) where
  unfoldable pub overdue : Invoices → ℕ
  overdue = tally (is_overdue now)

  lookup-select :
      (id : Text) (m : Invoices) → lookup id m ≡ none → lookup id (select (is_overdue now) m) ≡ none
  lookup-select id [] h = refl
  lookup-select id ((j, i) ∷ m) h = elim (Bool-cases (text_eq j id)) [
    | inl here ↦ absurd (gone here)
    | inr there ↦ elim (Bool-cases (is_overdue now (j, i))) [
      | inl due ↦ rw due (rw there (lookup-select id m (rw there at h)))
      | inr new ↦ rw new (lookup-select id m (rw there at h))
    ]
  ]
    where
      gone : text_eq j id ≡ true → ⊥
      gone here = let k : some i ≡ none = rw here at h in cc

  pub Unique-select : (m : Invoices) → Unique m → Unique (select (is_overdue now) m)
  Unique-select [] h = tt
  Unique-select ((j, i) ∷ m) h = elim (Bool-cases (is_overdue now (j, i))) [
    | inl due ↦ rw due (lookup-select j m h.0, Unique-select m h.1)
    | inr new ↦ rw new (Unique-select m h.1)
  ]

  lookup-ne :
      (j id : Text) (i : ZcashInvoice) (m : Invoices)
      → lookup j m ≡ none
      → lookup id m ≡ some i
      → text_eq j id ≡ false
  lookup-ne j id i m h k = elim (Bool-cases (text_eq j id)) [
    | inr differ ↦ differ
    | inl same_key ↦
        absurd
          (none_some (sym h ∙ ap (λ (x : Text). lookup x m) ((text_eq_iff j id).0 same_key) ∙ k))
  ]
    where
      none_some : none ≡ some i → ⊥
      none_some e = cc

  Due-cons :
      (j : Text) (i : ZcashInvoice) (rows m : Invoices)
      → lookup j m ≡ none
      → Due now rows m
      → Due now rows ((j, i) ∷ m)
  Due-cons j i [] m h k = tt
  Due-cons j i ((id, v) ∷ rows) m h k =
      ((rw (lookup-ne j id v m h k.0.0) k.0.0, k.0.1), Due-cons j i rows m h k.1)

  pub Due-select : (m : Invoices) → Unique m → Due now (select (is_overdue now) m) m
  Due-select [] h = tt
  Due-select ((j, i) ∷ m) h = elim (Bool-cases (is_overdue now (j, i))) [
    | inl due ↦
        rw due ((rw ((text_eq_iff j j).1 refl), due), Due-cons j i _ m h.0 (Due-select m h.1))
    | inr new ↦ rw new (Due-cons j i _ m h.0 (Due-select m h.1))
  ]

  lookup-take :
      (n : ℕ) (id : Text) (rows : Invoices) → lookup id rows ≡ none → lookup id (take n rows) ≡ none
  lookup-take zero id rows h = refl
  lookup-take (suc n) id [] h = refl
  lookup-take (suc n) id ((j, i) ∷ rows) h = elim (Bool-cases (text_eq j id)) [
    | inl here ↦ absurd (let k : some i ≡ none = rw here at h in cc)
    | inr there ↦ rw there (lookup-take n id rows (rw there at h))
  ]

  pub Unique-take : (n : ℕ) (rows : Invoices) → Unique rows → Unique (take n rows)
  Unique-take zero rows h = tt
  Unique-take (suc n) [] h = tt
  Unique-take (suc n) ((j, i) ∷ rows) h = (lookup-take n j rows h.0, Unique-take n rows h.1)

  pub Due-take : (n : ℕ) (rows m : Invoices) → Due now rows m → Due now (take n rows) m
  Due-take zero rows m h = tt
  Due-take (suc n) [] m h = tt
  Due-take (suc n) (row ∷ rows) m h = (h.0, Due-take n rows m h.1)

  -- A row that is expired is overdue no longer; all others are what they were.
  pub overdue-insert :
      (id : Text) (i new : ZcashInvoice) (m : Invoices)
      → lookup id m ≡ some i
      → is_overdue now (id, i) ≡ true
      → is_overdue now (id, new) ≡ false
      → overdue (insert id new m) + 1 ≡ overdue m
  unfolding overdue
  overdue-insert id i new [] h due done = cc
  overdue-insert id i new ((j, v) ∷ m) h due done = elim (Bool-cases (text_eq j id)) [
    | inl here ↦
        let e : v ≡ i = some-injective v i (rw here at h) in
        let d : is_overdue now (j, v) ≡ true =
          ap (λ (x : ZcashInvoice). is_overdue now (j, x)) e ∙ due in
        rw (here, done, d) (omega arith)
    | inr there ↦
        rw there (next (is_overdue now (j, v)) (overdue-insert id i new m (rw there at h) due done))
  ]
    where
      next :
          (b : Bool)
          → overdue (insert id new m) + 1 ≡ overdue m
          → (if b then suc (overdue (insert id new m)) else overdue (insert id new m)) + 1
            ≡ (if b then suc (overdue m) else overdue m)
      next true h = omega (arith, h)
      next false h = h

  pub Due-insert :
      (id : Text) (new : ZcashInvoice) (rows m : Invoices)
      → lookup id rows ≡ none
      → Due now rows m
      → Due now rows (insert id new m)
  Due-insert id new [] m h k = tt
  Due-insert id new ((j, v) ∷ rows) m h k = elim (Bool-cases (text_eq j id)) [
    | inl here ↦ absurd (let e : some v ≡ none = rw here at h in cc)
    | inr there ↦ (
      (lookup-insert id j new m ∙ rw (text_eq_sym j id there) k.0.0, k.0.1),
      Due-insert id new rows m (rw there at h) k.1,
    )
  ]

  pub Unique-insert :
      (id : Text) (new : ZcashInvoice) (m : Invoices) → Unique m → Unique (insert id new m)
  Unique-insert id new [] h = (refl, tt)
  Unique-insert id new ((j, v) ∷ m) h = elim (Bool-cases (text_eq j id)) [
    | inl here ↦
        rw here (subst (λ (x : Text). lookup x m ≡ none) ((text_eq_iff j id).0 here) h.0, h.1)
    | inr there ↦ rw there (
      lookup-insert id j new m ∙ ground (arith, h.0, text_eq_iff j id, text_eq_iff id j),
      Unique-insert id new m h.1,
    )
  ]
