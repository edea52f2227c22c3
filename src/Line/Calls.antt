-- ===== src/Line/Calls.antt =====
-- Several `write!`s into one buffer.
use esp_csi_rs.Base.{
  ℕ, ◌+◌, ◌≤◌, ◌<◌, ◌≡◌, ◌⊎◌, inl, inr, sym, ap, ◌∙◌, subst, List, [], ◌∷◌, ◌++◌, ltb, if-false,
  Bool-cases, length, length-append, append_nil, All, arith,
}
use mathlib.Core.List.{append_assoc}
use esp_csi_rs.Line.{write_calls, write_fmt}

-- The bytes of one `write!`, and of several, where nothing is cut off.
abbrev pub concat : List (List ℕ) → List ℕ
concat [] = []
concat (s ∷ pieces) = s ++ concat pieces

abbrev pub concat_calls : List (List (List ℕ)) → List ℕ
concat_calls [] = []
concat_calls (call ∷ calls) = concat call ++ concat_calls calls

-- Each piece is at most 12 bytes long.
abbrev pub AreShort : List (List (List ℕ)) → Type 0
AreShort calls = All (All (λ s. length s ≤ 12)) calls

write_fmt-room :
    (room : ℕ) (pieces : List (List ℕ)) (out : List ℕ)
    → length out + length (concat pieces) ≤ room
    → write_fmt room pieces out ≡ out ++ concat pieces
unfolding write_fmt
write_fmt-room room [] out fits = sym (append_nil out)
write_fmt-room room (s ∷ pieces) out fits =
    let split = length-append s (concat pieces) in
    let joined = length-append out s in
    if-false {b = ltb room (length out + length s)} _ _ (ground (arith, split))
    ∙ (write_fmt-room room pieces (out ++ s) (omega (arith, split, joined))
        ∙ append_assoc out s (concat pieces))

-- What a `write!` leaves: all of its bytes, or a buffer with less than 12 bytes left.
pub record Left (room : ℕ) (out whole result : List ℕ) : Type 0 where
  pub grows : length out ≤ length result
  pub within : length result ≤ length whole
  pub whole_or_full : (result ≡ whole) ⊎ (room < length result + 12)

write_fmt-Left :
    (room : ℕ) (pieces : List (List ℕ)) (out : List ℕ)
    → All (λ s. length s ≤ 12) pieces
    → Left room out (out ++ concat pieces) (write_fmt room pieces out)
unfolding write_fmt
write_fmt-Left room [] out short = record {
  grows = omega arith;
  within = omega (arith, length-append out []);
  whole_or_full = inl (sym (append_nil out));
}
write_fmt-Left room (s ∷ pieces) out short =
    let rest = write_fmt-Left room pieces (out ++ s) short.1 in
    let joined = length-append out s in
    let whole = ap length (append_assoc out s (concat pieces)) in
    let all' = length-append out (s ++ concat pieces) in
    elim (Bool-cases (ltb room (length out + length s))) [
      | inl full ↦ rw full (record {
        grows = omega arith;
        within = omega (arith, all');
        whole_or_full = inr (ground (arith, short.0));
      })
      | inr fits ↦ rw fits (record {
        grows = omega (arith, rest.grows, joined);
        within = omega (arith, rest.within, whole);
        whole_or_full =
            subst
              (λ w.
                (write_fmt room pieces (out ++ s) ≡ w)
                ⊎ (room < length (write_fmt room pieces (out ++ s)) + 12))
              (append_assoc out s (concat pieces)) rest.whole_or_full;
      })
    ]

Left-trans :
    (room : ℕ) (out mid r rest r' : List ℕ)
    → Left room out mid r
    → Left room r (r ++ rest) r'
    → Left room out (mid ++ rest) r'
Left-trans room out mid r rest r' a b = record {
  grows = omega (arith, a.grows, b.grows);
  within = omega (arith, a.within, b.within, length-append r rest, length-append mid rest);
  whole_or_full = elim a.whole_or_full [
    | inl e ↦ rw⁻¹ e b.whole_or_full
    | inr full ↦ inr (omega (arith, full, b.grows))
  ];
}

pub write_calls-Left :
    (room : ℕ) (calls : List (List (List ℕ))) (out : List ℕ)
    → AreShort calls
    → Left room out (out ++ concat_calls calls) (write_calls room calls out)
unfolding write_calls
write_calls-Left room [] out short = record {
  grows = omega arith;
  within = omega (arith, length-append out []);
  whole_or_full = inl (sym (append_nil out));
}
write_calls-Left room (call ∷ calls) out short =
    subst (λ w. Left room out w (write_calls room calls (write_fmt room call out)))
      (append_assoc out (concat call) (concat_calls calls))
      (Left-trans room out (out ++ concat call) (write_fmt room call out) (concat_calls calls)
        (write_calls room calls (write_fmt room call out)) (write_fmt-Left room call out short.0)
        (write_calls-Left room calls (write_fmt room call out) short.1))

pub write_calls-room :
    (room : ℕ) (calls : List (List (List ℕ))) (out : List ℕ)
    → length out + length (concat_calls calls) ≤ room
    → write_calls room calls out ≡ out ++ concat_calls calls
unfolding write_calls
write_calls-room room [] out fits = sym (append_nil out)
write_calls-room room (call ∷ calls) out fits =
    let split = length-append (concat call) (concat_calls calls) in
    let joined = length-append out (concat call) in
    rw (write_fmt-room room call out (omega (arith, split))) (
      write_calls-room room calls (out ++ concat call) (omega (arith, split, joined))
      ∙ append_assoc out (concat call) (concat_calls calls))
