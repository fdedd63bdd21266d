-- ===== src/Payments/Sweep.antt =====
-- When the sweep of the expiry worker ends, and what it leaves (internal/zcash/expiry_worker.go).
use enchanted_proxy.Payments.Lapsed.{SameLapsed-insert, lapsed_row, lapsed-none, SameLapsed}
use enchanted_proxy.Payments.Lifecycle.{mirror-invoices}
use Prim.Native.Nat.{min}
use enchanted_proxy.Payments.Overdue.{
  Due-select, Due-take, Unique-select, Unique-take, Due-insert, Unique-insert, overdue-insert, Due,
  Unique, overdue, Invoices,
}
use enchanted_proxy.Payments.Expiry.{
  expire_invoices, is_overdue, Failures, expire_one, expire_batch, get_expired_pending,
}
use enchanted_proxy.Prelude.{
  ltb→lt, ==_iff, ltb, ◌==◌, subst, tally, length-take, select, insert, length, lookup, ℕ, zero,
  suc, ◌+◌, ◌≤◌, ◌<◌, Bool, true, false, [], ◌∷◌, Option, none, some, Text, ◌≡◌, refl, sym, ap, ◌∙◌,
  inl, inr, arith, Bool-cases, text_key,
}
use enchanted_proxy.Payments.Store.{
  mirror, update_where, is_pending, ZcashInvoice, Store, update_to_expired, expired,
}

-- No update fails; and every update of Firestore does.
abbrev pub no_failures : Failures
no_failures = record {
  query_fails = false;
  firestore_fails = λ id. false;
  update_fails = λ id. false;
}

abbrev pub firestore_down : Failures
firestore_down = record {
  query_fails = false;
  firestore_fails = λ id. true;
  update_fails = λ id. false;
}

is_overdue-pending :
    (now : ℕ) (id : Text) (i : ZcashInvoice)
    → is_overdue now (id, i) ≡ true
    → is_pending i.status ≡ true
is_overdue-pending now id i h = ground arith

update_to_expired-Due :
    (id : Text) (i : ZcashInvoice) (s : Store)
    → lookup id s.invoices ≡ some i
    → is_pending i.status ≡ true
    → (update_to_expired id s).invoices ≡ insert id (record i { status = expired }) s.invoices
unfolding update_to_expired
update_to_expired-Due id i s h p = ap (λ (t : Store). t.invoices) updated
  where
    updated :
        update_to_expired id s
        ≡ record s { invoices = insert id (record i { status = expired }) s.invoices }
    updated = rw (h, update_where) (rw p)

expire_one-Due :
    (id : Text) (i : ZcashInvoice) (s : Store)
    → lookup id s.invoices ≡ some i
    → is_pending i.status ≡ true
    → (expire_one no_failures id s).invoices ≡ insert id (record i { status = expired }) s.invoices
unfolding expire_one
expire_one-Due id i s h p =
    update_to_expired-Due id i (mirror id expired s)
      (ap (lookup id) (mirror-invoices id expired s) ∙ h) p
    ∙ ap (insert id (record i { status = expired })) (mirror-invoices id expired s)

-- A batch of overdue invoices is expired: as many fewer are overdue.
expire_batch-Due :
    (now : ℕ) (rows : Invoices) (s : Store)
    → Unique rows
    → Unique s.invoices
    → Due now rows s.invoices
    → let s' = expire_batch no_failures rows s in
      (overdue now s'.invoices + length rows ≡ overdue now s.invoices)
      × Unique s'.invoices
      × SameLapsed now s'.invoices s.invoices
unfolding expire_batch
expire_batch-Due now [] s u v h = (omega arith, v, (λ k. refl))
expire_batch-Due now ((id, i) ∷ rows) s u v h =
    let p = is_overdue-pending now id i h.0.1 in
    let s' = expire_one no_failures id s in
    let table : s'.invoices ≡ insert id (record i { status = expired }) s.invoices =
      expire_one-Due id i s h.0.0 p in
    let fewer =
      overdue-insert now id i (record i { status = expired }) s.invoices h.0.0 h.0.1 refl in
    let (rest, w, same) =
      expire_batch-Due now rows s' u.1
        (subst Unique (sym table)
          (Unique-insert now id (record i { status = expired }) s.invoices v))
        (subst (Due now rows) (sym table)
          (Due-insert now id (record i { status = expired }) rows s.invoices u.0 h.1)) in
    (
      omega (arith, rest, fewer, ap (overdue now) table),
      w,
      (λ k.
          same k
          ∙ ap (λ (m : Invoices). lapsed_row now (lookup k m)) table
          ∙ SameLapsed-insert now id i s.invoices h.0.0 h.0.1 k),
    )

length-select : (p : Text × ZcashInvoice → Bool) (m : Invoices) → length (select p m) ≡ tally p m
length-select p [] = refl
length-select p (row ∷ m) = ground (arith, length-select p m)

length-get_expired_pending :
    (now batch : ℕ) (s : Store)
    → length (get_expired_pending now batch s) ≡ min batch (overdue now s.invoices)
unfolding get_expired_pending overdue
length-get_expired_pending now batch s =
    length-take batch (select (is_overdue now) s.invoices)
    ∙ ap (min batch) (length-select (is_overdue now) s.invoices)

-- The sweep has ended, and every row is what is to become of it.
abbrev pub Swept : ℕ → Store → Option Store → Type 0
Swept now before o =
    (s : Store) × (o ≡ some s)
    × ((k : Text) → lookup k s.invoices ≡ lapsed_row now (lookup k before.invoices))
    × (overdue now s.invoices ≡ 0)

-- Without failures and with batches of at least one row, the sweep of a table with unique ids ends within one
-- batch more than there are overdue invoices. Then every invoice that
-- had been pending for more than a day is expired and otherwise unchanged, all others are unchanged, and none is
-- lost or added.
pub expire_invoices-Swept :
    (fuel now batch : ℕ) (s : Store)
    → Unique s.invoices
    → 0 < batch
    → overdue now s.invoices < fuel
    → Swept now s (expire_invoices fuel no_failures now batch s)
unfolding expire_invoices
expire_invoices-Swept zero now batch s u b h = elim h [ ]
expire_invoices-Swept (suc fuel) now batch s u b h =
    let rows = get_expired_pending now batch s in
    let len = length-get_expired_pending now batch s in
    let (fewer, v, same) =
      expire_batch-Due now rows s (Unique-take now batch _ (Unique-select now s.invoices u)) u
        (Due-take now batch _ s.invoices (Due-select now s.invoices u)) in
    let s' = expire_batch no_failures rows s in
    elim (Bool-cases (length rows == 0)) [
      | inl empty ↦
          let none_left = nothing len empty in
          rw empty (s, refl, (λ k. lapsed-none now s.invoices k none_left), none_left)
      | inr some_rows ↦ rw some_rows (elim (Bool-cases (ltb (length rows) batch)) [
        | inl short ↦
            let none_left = emptied len fewer short in
            rw short (s', refl, (λ k. lapsed-none now s'.invoices k none_left ∙ same k), none_left)
        | inr full ↦ rw full (
            let (r, e, rows_of, none_left) =
              expire_invoices-Swept fuel now batch s' v b (progress len fewer full) in
            (r, e, (λ k. rows_of k ∙ same k), none_left))
      ])
    ]
  where
    nothing :
        length (get_expired_pending now batch s) ≡ min batch (overdue now s.invoices)
        → (length (get_expired_pending now batch s) == 0) ≡ true
        → overdue now s.invoices ≡ 0
    nothing len e = let z = (==_iff _ 0).0 e in omega (arith, len, z)

    emptied :
        {k : ℕ}
        → length (get_expired_pending now batch s) ≡ min batch (overdue now s.invoices)
        → k + length (get_expired_pending now batch s) ≡ overdue now s.invoices
        → ltb (length (get_expired_pending now batch s)) batch ≡ true
        → k ≡ 0
    emptied len fewer short = omega (arith, len, fewer, ltb→lt _ _ short)

    progress :
        {k : ℕ}
        → length (get_expired_pending now batch s) ≡ min batch (overdue now s.invoices)
        → k + length (get_expired_pending now batch s) ≡ overdue now s.invoices
        → ltb (length (get_expired_pending now batch s)) batch ≡ false
        → k < fuel
    progress len fewer full =
        let more : batch ≤ length (get_expired_pending now batch s) = ground (arith, full) in
        omega (arith, len, fewer, more)

expire_batch-down : (rows : Invoices) (s : Store) → expire_batch firestore_down rows s ≡ s
unfolding expire_batch expire_one
expire_batch-down [] s = refl
expire_batch-down ((id, i) ∷ rows) s = expire_batch-down rows s

-- While Firestore refuses every update and a full batch of invoices is overdue, the sweep does not end: it
-- reads the same batch again and again, without a pause.
pub expire_invoices-stuck :
    (fuel now batch : ℕ) (s : Store)
    → 0 < batch
    → batch ≤ overdue now s.invoices
    → expire_invoices fuel firestore_down now batch s ≡ none
unfolding expire_invoices
expire_invoices-stuck zero now batch s b h = refl
expire_invoices-stuck (suc fuel) now batch s b h =
    rw (not_empty, not_short)
      (ap (expire_invoices fuel firestore_down now batch)
          (expire_batch-down (get_expired_pending now batch s) s)
        ∙ expire_invoices-stuck fuel now batch s b h)
  where
    full : length (get_expired_pending now batch s) ≡ batch
    full = length-get_expired_pending now batch s ∙ omega arith

    not_empty : (length (get_expired_pending now batch s) == 0) ≡ false
    not_empty = ground (arith, full)

    not_short : ltb (length (get_expired_pending now batch s)) batch ≡ false
    not_short = ground (arith, full)
