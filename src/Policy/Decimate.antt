-- ===== src/Policy/Decimate.antt =====
-- A run of the decimator, src/lib/csi/policy.rs.
use esp_csi_rs.Base.{
  ℕ, zero, suc, ◌+◌, ◌%◌, ◌<◌, ◌≡◌, refl, sym, ap, ap₂, ◌∙◌, max, Bool, inl, inr, List, [], ◌∷◌,
  ◌==◌, leb, if◌then◌else◌, Bool-cases, arith,
}
use native.Mathlib.Nat.{mod-add-mod, mod-eq_of_lt, mod_self, mod-lt}
use esp_csi_rs.Policy.{Decimator, new_decimator, tick}

-- What `m` calls of `tick` at factor `n` keep.
unfoldable pub ticks : Decimator → ℕ → ℕ → List Bool
ticks d n zero = []
ticks d n (suc m) = let (d', keep) = tick d n in keep ∷ ticks d' n m

-- Of `m` measurements numbered from `i`, those whose number is a multiple of `n` (of 1 if `n` is 0).
unfoldable pub multiples : ℕ → ℕ → ℕ → List Bool
multiples n i zero = []
multiples n i (suc m) = (i % max n 1 == 0) ∷ multiples n (i + 1) m

mod_step : (i n : ℕ) → 0 < n → (i + 1) % n ≡ (if leb n (i % n + 1) then 0 else i % n + 1)
mod_step i n h = elim (Bool-cases (leb n (i % n + 1))) [
  | inl last ↦
      let e : i % n + 1 ≡ n = ground (arith, mod-lt i h) in
      rw last (sym (mod-add-mod i n 1) ∙ ap (λ k. k % n) e ∙ mod_self n)
  | inr more ↦
      let below : i % n + 1 < n = ground arith in
      rw more (sym (mod-add-mod i n 1) ∙ mod-eq_of_lt below)
]

ticks-multiples :
    (d : Decimator) (n i m : ℕ) → d.count ≡ i % max n 1 → ticks d n m ≡ multiples n i m
unfolding ticks multiples tick
ticks-multiples d n i zero e = refl
ticks-multiples d n i (suc m) e = ap₂ ◌∷◌ (ap (λ k. k == 0) e) (
    ticks-multiples (tick d n).0 n (i + 1) m (
      ap (λ k. if leb (max n 1) (k + 1) then 0 else k + 1) e
      ∙ sym (mod_step i (max n 1) (omega arith))))

-- From a reset decimator, exactly the measurements whose number, counted from 0, is a multiple of
-- the factor are kept, and all of them at factor 0 or 1.
pub ticks_lem : (n m : ℕ) → ticks new_decimator n m ≡ multiples n 0 m
ticks_lem n m = ticks-multiples new_decimator n 0 m (sym (mod-eq_of_lt (omega arith)))

-- The count of a decimator that is ticked at one factor stays below it, so a `u16` does not wrap.
pub tick-count : (d : Decimator) (n : ℕ) → d.count < max n 1 → (tick d n).0.count < max n 1
unfolding tick
tick-count d n h = ground arith
