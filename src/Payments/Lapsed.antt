-- ===== src/Payments/Lapsed.antt =====
-- What is to become of the rows of a table in a sweep of internal/zcash/expiry_worker.go.
use enchanted_proxy.Payments.Overdue.{overdue, Invoices}
use enchanted_proxy.Payments.Expiry.{is_overdue}
use enchanted_proxy.Payments.Store.{is_pending, ZcashInvoice, expired}
use enchanted_proxy.Prelude.{
  text_eq, text_eq_iff, lookup-insert, ◌&&◌, if◌then◌else◌, ltb, insert, lookup, ℕ, ◌+◌, true, [],
  ◌∷◌, Option, none, some, Text, ◌≡◌, refl, sym, ap, ◌∙◌, inl, inr, arith, Bool-cases, text_key,
}

-- What is to become of an invoice: one that has been pending for more than a day expires, and nothing else of it
-- changes; any other stays as it is.
abbrev pub lapsed : ℕ → ZcashInvoice → ZcashInvoice
lapsed now i =
    if is_pending i.status && ltb (i.created_at + 86_400) now
    then record i { status = expired }
    else i

abbrev pub lapsed_row : ℕ → Option ZcashInvoice → Option ZcashInvoice
lapsed_row now none = none
lapsed_row now (some i) = some (lapsed now i)

-- Both tables have the same rows once what is overdue has expired.
abbrev pub SameLapsed : ℕ → Invoices → Invoices → Type 0
SameLapsed now m' m = (k : Text) → lapsed_row now (lookup k m') ≡ lapsed_row now (lookup k m)

pub SameLapsed-insert :
    (now : ℕ) (id : Text) (i : ZcashInvoice) (m : Invoices)
    → lookup id m ≡ some i
    → is_overdue now (id, i) ≡ true
    → SameLapsed now (insert id (record i { status = expired }) m) m
SameLapsed-insert now id i m there due k = elim (Bool-cases (text_eq id k)) [
  | inl same ↦
      let old : lookup k m ≡ some i =
        ap (λ (x : Text). lookup x m) (sym ((text_eq_iff id k).0 same)) ∙ there in
      let new : lookup k (insert id (record i { status = expired }) m)
          ≡ some (record i { status = expired }) =
        lookup-insert id k (record i { status = expired }) m ∙ rw same refl in
      let is_due : lapsed now i ≡ record i { status = expired } = rw due refl in
      ap (lapsed_row now) new
      ∙ ap (λ (v : ZcashInvoice). some v) (sym is_due)
      ∙ ap (lapsed_row now) (sym old)
  | inr other ↦
      let same : lookup k (insert id (record i { status = expired }) m) ≡ lookup k m =
        lookup-insert id k (record i { status = expired }) m ∙ rw other refl in
      ap (lapsed_row now) same
]

-- Where nothing is overdue, nothing is to expire.
pub lapsed-none :
    (now : ℕ) (m : Invoices) (k : Text)
    → overdue now m ≡ 0
    → lookup k m ≡ lapsed_row now (lookup k m)
unfolding overdue
lapsed-none now [] k h = refl
lapsed-none now ((id, i) ∷ m) k h = elim (Bool-cases (is_overdue now (id, i))) [
  | inl due ↦ absurd (ground arith)
  | inr fresh ↦ elim (Bool-cases (text_eq id k)) [
    | inl same ↦ rw same (ap (λ (v : ZcashInvoice). some v) (rw fresh refl))
    | inr other ↦ rw other (lapsed-none now m k (ground arith))
  ]
]
