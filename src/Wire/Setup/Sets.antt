-- ===== src/Wire/Setup/Sets.antt =====
-- A `PpduSet` beside the list of the formats put into it.
use esp_csi_rs.Base.{
  ℕ, ◌%◌, ◌^◌, ◌≡◌, inl, inr, refl, ap, ap₂, ◌∙◌, bit_and, Bool, true, false, not, ◌&&◌, ◌||◌, List,
  [], ◌∷◌, ◌==◌, if◌then◌else◌, Bool-cases, arith,
}
use native.Mathlib.Nat.{zero-div, one-le-pow}
use esp_csi_rs.Base.Bits.{
  bit_and-bit_or, bit_or-eq_zero, zero-bit_and, bit_of, bit_of-bit_or, bit_and-pow,
}
use esp_csi_rs.Wire.{PpduFormat}
use esp_csi_rs.Wire.Setup.{
  PpduSet, any_format, bit_index, bit, with_format, contains, only_he, excludes_legacy, not_he_mask,
  legacy_mask,
}

-- The set with these formats, put in one after the other, last first.
unfoldable pub of_list : List PpduFormat → PpduSet
of_list [] = any_format
of_list (f ∷ fs) = with_format (of_list fs) f

abbrev pub same_format : PpduFormat → PpduFormat → Bool
same_format f g = bit_index f == bit_index g

unfoldable pub member : PpduFormat → List PpduFormat → Bool
member g [] = false
member g (f ∷ fs) = same_format f g || member g fs

abbrev pub is_empty : List PpduFormat → Bool
is_empty [] = true
is_empty (f ∷ fs) = false

-- One format's bit, read at the place of another.
bit_of-bit : (f g : PpduFormat) → bit_of (bit_index g) (bit f) ≡ (if same_format f g then 1 else 0)
bit_of-bit PpduFormat.unknown PpduFormat.unknown = refl
bit_of-bit _ PpduFormat.unknown = refl
bit_of-bit _ PpduFormat.dsss = refl
bit_of-bit _ PpduFormat.non_ht = refl
bit_of-bit _ PpduFormat.ht = refl
bit_of-bit _ PpduFormat.vht = refl
bit_of-bit _ PpduFormat.vht_mu = refl
bit_of-bit _ PpduFormat.he_su = refl
bit_of-bit _ PpduFormat.he_mu = refl
bit_of-bit _ PpduFormat.he_er_su = refl
bit_of-bit _ PpduFormat.he_tb = refl
bit_of-bit _ _ = refl

bit_of-of_list :
    (fs : List PpduFormat) (g : PpduFormat)
    → bit_of (bit_index g) (of_list fs).bits ≡ (if member g fs then 1 else 0)
unfolding of_list member with_format
bit_of-of_list [] g = ap (λ t. t % 2) (zero-div (2 ^ bit_index g))
bit_of-of_list (f ∷ fs) g = ground (
  arith,
  bit_of-bit_or (bit_index g) (of_list fs).bits (bit f),
  bit_of-bit f g,
  bit_of-of_list fs g,
)

same_format_self : (f : PpduFormat) → same_format f f ≡ true
same_format_self f = ground arith

member_head : (f : PpduFormat) (fs : List PpduFormat) → member f (f ∷ fs) ≡ true
unfolding member
member_head f fs = rw (same_format_self f)

bits-of_list-zero : (fs : List PpduFormat) → ((of_list fs).bits == 0) ≡ is_empty fs
bits-of_list-zero [] = unfold of_list in refl
bits-of_list-zero (f ∷ fs) = elim (Bool-cases ((of_list (f ∷ fs)).bits == 0)) [
  | inl zero_bits ↦
      let e : (of_list (f ∷ fs)).bits ≡ 0 = ground arith in
      let none_set : bit_of (bit_index f) (of_list (f ∷ fs)).bits ≡ 0 =
        ap (bit_of (bit_index f)) e ∙ ap (λ t. t % 2) (zero-div (2 ^ bit_index f)) in
      absurd (ground (arith, bit_of-of_list (f ∷ fs) f, member_head f fs, none_set))
  | inr some_bits ↦ some_bits
]

-- `contains` of a set is membership in the formats put into it, and every format if none was.
contains-of_list :
    (fs : List PpduFormat) (g : PpduFormat) → contains (of_list fs) g ≡ (is_empty fs || member g fs)
unfolding contains
contains-of_list fs g = rw (bits-of_list-zero fs) (
    ground (
      arith,
      bit_and-pow (bit_index g) (of_list fs).bits,
      bit_of-of_list fs g,
      one-le-pow (bit_index g) 2,
    ))

and_swap : (a b : Bool) → (a && b) ≡ (b && a)
and_swap a b = ground arith

-- Every format of the list lies outside a mask.
all_clear : ℕ → List PpduFormat → Bool
all_clear m [] = true
all_clear m (f ∷ fs) = bit_and (bit f) m == 0 && all_clear m fs

bit_and-of_list :
    (m : ℕ) (fs : List PpduFormat) → (bit_and (of_list fs).bits m == 0) ≡ all_clear m fs
unfolding of_list with_format all_clear
bit_and-of_list m [] = ap (λ t. t == 0) (zero-bit_and m)
bit_and-of_list m (f ∷ fs) =
    rw (bit_and-bit_or (of_list fs).bits (bit f) m, bit_or-eq_zero)
      (rw (bit_and-of_list m fs) (and_swap (all_clear m fs) (bit_and (bit f) m == 0)))

unfoldable pub all_of : (PpduFormat → Bool) → List PpduFormat → Bool
all_of p [] = true
all_of p (f ∷ fs) = p f && all_of p fs

-- The HE (802.11ax) formats, and the legacy ones.
abbrev pub is_he : PpduFormat → Bool
is_he PpduFormat.he_su = true
is_he PpduFormat.he_mu = true
is_he PpduFormat.he_er_su = true
is_he PpduFormat.he_tb = true
is_he _ = false

abbrev pub not_legacy : PpduFormat → Bool
not_legacy PpduFormat.dsss = false
not_legacy PpduFormat.non_ht = false
not_legacy _ = true

he_clear : (f : PpduFormat) → (bit_and (bit f) not_he_mask == 0) ≡ is_he f
he_clear PpduFormat.unknown = refl
he_clear _ = refl

legacy_clear : (f : PpduFormat) → (bit_and (bit f) legacy_mask == 0) ≡ not_legacy f
legacy_clear PpduFormat.unknown = refl
legacy_clear _ = refl

all_clear-all_of :
    (m : ℕ) (p : PpduFormat → Bool)
    → ((f : PpduFormat) → (bit_and (bit f) m == 0) ≡ p f)
    → (fs : List PpduFormat) → all_clear m fs ≡ all_of p fs
unfolding all_clear all_of
all_clear-all_of m p h [] = refl
all_clear-all_of m p h (f ∷ fs) = ap₂ ◌&&◌ (h f) (all_clear-all_of m p h fs)

-- `only_he` and `excludes_legacy` of a set say that some format was put into it and that all are
-- HE, respectively that none is DSSS or non-HT OFDM.
pub PpduSet_queries :
    (fs : List PpduFormat)
    → (only_he (of_list fs) ≡ (not (is_empty fs) && all_of is_he fs))
      × (excludes_legacy (of_list fs) ≡ (not (is_empty fs) && all_of not_legacy fs))
unfolding only_he excludes_legacy
PpduSet_queries fs = (
  rw (
    bits-of_list-zero fs,
    bit_and-of_list not_he_mask fs,
    all_clear-all_of not_he_mask is_he he_clear fs,
  ),
  rw (
    bits-of_list-zero fs,
    bit_and-of_list legacy_mask fs,
    all_clear-all_of legacy_mask not_legacy legacy_clear fs,
  ),
)
