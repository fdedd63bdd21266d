-- ===== src/Glm/Scan.antt =====
-- An independent description of the filter of internal/streaming/glm_content_filter.go: one pass over the
-- characters.
use enchanted_proxy.Prelude.{
  not, ◌-◌, ◌<◌, ℕ, zero, suc, Bool, true, false, [], ◌∷◌, ◌++◌, Text, has_prefix, if◌then◌else◌,
  length, drop, ◌≡◌, refl, arith,
}
use enchanted_proxy.Glm.Search.{tag_of}

-- Inside of a call or outside; or passing the rest of a tag, one character more than the number says, after
-- which it is inside or not.
pub data Mode : Type 0 where
  reading : Bool → Mode
  passing : ℕ → Bool → Mode

-- What was let through, how the pass goes on, and the beginning of a tag that is held back.
pub record Scanned : Type 0 where
  pub shown : Text
  pub mode : Mode
  pub held : Text

abbrev pub show : Text → Scanned → Scanned
show t r = record r { shown = t ++ r.shown }

-- Inside of a call nothing is let through.
abbrev pub visible : Bool → ℕ → Text
visible true c = []
visible false c = c ∷ []

-- A tag turns the mode; the beginning of one at the end of the text is held back.
unfoldable pub scan : Mode → Text → Scanned
scan m [] = record { shown = []; mode = m; held = [] }
scan (passing zero b) (c ∷ s) = scan (reading b) s
scan (passing (suc n) b) (c ∷ s) = scan (passing n b) s
scan (reading b) (c ∷ s) =
    let turned = scan (passing (length (tag_of b) - 2) (not b)) s in
    let shown_on = show (visible b c) (scan (reading b) s) in
    if has_prefix (c ∷ s) (tag_of b)
    then turned
    else if has_prefix (tag_of b) (c ∷ s)
    then record { shown = []; mode = reading b; held = c ∷ s }
    else shown_on

pub scan-turns :
    (b : Bool) (c : ℕ) (s : Text)
    → has_prefix (c ∷ s) (tag_of b) ≡ true
    → scan (reading b) (c ∷ s) ≡ scan (passing (length (tag_of b) - 2) (not b)) s
unfolding scan
scan-turns b c s h = rw h

pub scan-holds :
    (b : Bool) (c : ℕ) (s : Text)
    → has_prefix (c ∷ s) (tag_of b) ≡ false
    → has_prefix (tag_of b) (c ∷ s) ≡ true
    → scan (reading b) (c ∷ s) ≡ record { shown = []; mode = reading b; held = c ∷ s }
unfolding scan
scan-holds b c s h k = rw (h, k)

pub scan-shows :
    (b : Bool) (c : ℕ) (s : Text)
    → has_prefix (c ∷ s) (tag_of b) ≡ false
    → has_prefix (tag_of b) (c ∷ s) ≡ false
    → scan (reading b) (c ∷ s) ≡ show (visible b c) (scan (reading b) s)
unfolding scan
scan-shows b c s h k = rw (h, k)

-- The rest of a tag is passed.
pub scan-passing :
    (n : ℕ) (b : Bool) (s t : Text)
    → n < length s
    → scan (passing n b) (s ++ t) ≡ scan (reading b) (drop (suc n) s ++ t)
unfolding scan
scan-passing n b [] t h = absurd (omega arith)
scan-passing zero b (c ∷ s) t h = refl
scan-passing (suc n) b (c ∷ s) t h = scan-passing n b s t (omega arith)
