-- ===== src/Line/Split.antt =====
-- A comma-separated line, read back.
use esp_csi_rs.Base.{
  ℕ, ◌≢◌, ◌≡◌, refl, ap, ◌∙◌, List, [], ◌∷◌, ◌++◌, ◌==◌, if◌then◌else◌, if-false, All, arith,
}

abbrev pub NoComma : List ℕ → Type 0
NoComma s = All (λ (c : ℕ). c ≢ b',') s

abbrev pub on_head : ℕ → List (List ℕ) → List (List ℕ)
on_head c [] = (c ∷ []) ∷ []
on_head c (w ∷ ws) = (c ∷ w) ∷ ws

-- The texts between the commas.
unfoldable pub split : List ℕ → List (List ℕ)
split [] = [] ∷ []
split (c ∷ s) = if c == b',' then [] ∷ split s else on_head c (split s)

pub split-comma : (s rest : List ℕ) → NoComma s → split (s ++ (b',' ∷ rest)) ≡ s ∷ split rest
unfolding split
split-comma [] rest free = refl
split-comma (c ∷ s) rest free =
    if-false {b = c == b','} _ _ (ground (arith, free.0))
    ∙ ap (on_head c) (split-comma s rest free.1)

pub split-last : (s : List ℕ) → NoComma s → split s ≡ s ∷ []
unfolding split
split-last [] free = refl
split-last (c ∷ s) free =
    if-false {b = c == b','} _ _ (ground (arith, free.0)) ∙ ap (on_head c) (split-last s free.1)
