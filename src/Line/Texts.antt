-- ===== src/Line/Texts.antt =====
-- The text of one column.
use esp_csi_rs.Base.{
  ℕ, zero, suc, ◌+◌, ◌*◌, ◌/◌, ◌%◌, ◌^◌, ◌≤◌, ◌<◌, ◌≢◌, ◌≡◌, ◌⊎◌, refl, ap, true, false, Option,
  none, some, List, [], ◌∷◌, ◌++◌, get_or, ltb, if◌then◌else◌, length, length-append, append_nil,
  All, All-append, arith,
}
use native.Mathlib.Decide.{dec_lt}
use esp_csi_rs.Base.Text.{codes, read_decimal}
use esp_csi_rs.Base.Int.{unsigned_abs}
use esp_csi_rs.Mac.{Mac}
use esp_csi_rs.Decimal.{hex_digits, pad6_digits}
use esp_csi_rs.Decimal.Digits.{
  IsDigit, i32_digits_lem, pad6_digits_lem, read_signed, u32_digits_lem,
}
use esp_csi_rs.Line.{Column, column_writes}
use esp_csi_rs.Line.Split.{NoComma}

-- The address in a column.
abbrev pub mac_text : Mac → List ℕ
mac_text m =
    hex_digits m.b0
    ++ (b':'
        ∷ (hex_digits m.b1
            ++ (b':'
                ∷ (hex_digits m.b2
                    ++ (b':'
                        ∷ (hex_digits m.b3
                            ++ (b':' ∷ (hex_digits m.b4 ++ (b':' ∷ hex_digits m.b5)))))))))

-- What a column's text says.
abbrev pub Shows : Column → List ℕ → Type 0
Shows (Column.constant t) s = s ≡ t
Shows (Column.number n) s = (read_decimal s ≡ n) × All IsDigit s × (1 ≤ length s)
Shows (Column.integer z) s = read_signed s ≡ z
Shows (Column.address m) s = s ≡ mac_text m
Shows (Column.seconds t) s =
    (a : List ℕ) × (b : List ℕ) × (s ≡ a ++ (b'.' ∷ b))
    × (read_decimal a * 1_000_000 + read_decimal b ≡ t)
    × (length b ≡ 6)

abbrev pub ShowAll : List Column → List (List ℕ) → Type 0
ShowAll [] [] = Unit {0}
ShowAll (c ∷ cs) (s ∷ ss) = Shows c s × ShowAll cs ss
ShowAll _ _ = ⊥

-- The values that the types allow, and a constant without a comma.
abbrev pub IsColumn : Column → Type 0
IsColumn (Column.constant t) = NoComma t
IsColumn (Column.number n) = n < 2 ^ 32
IsColumn (Column.integer z) = unsigned_abs z < 2 ^ 32
IsColumn (Column.address m) = Unit {0}
IsColumn (Column.seconds t) = t < 2 ^ 32

-- Digits that are enough for `n`.
abbrev pub digits_of : ℕ → ℕ
digits_of n =
    if ltb n 10
    then 1
    else if ltb n 100
    then 2
    else if ltb n 1000
    then 3
    else if ltb n 100_000
    then 5
    else 10

abbrev pub width : Column → ℕ
width (Column.constant t) = length t
width (Column.number n) = digits_of n
width (Column.integer z) = suc (digits_of (unsigned_abs z))
width (Column.address m) = 17
width (Column.seconds t) = digits_of (t / 1_000_000) + 7

digits_of_lem :
    (n : ℕ) → n < 2 ^ 32 → (1 ≤ digits_of n) × (digits_of n ≤ 10) × (n < 10 ^ digits_of n)
digits_of_lem n fits = elim (dec_lt n 10) [
  | yes p ↦ rw (ltb_of n 10 p) (omega arith)
  | no a ↦ rw (not_ltb_of n 10 a) (elim (dec_lt n 100) [
    | yes p ↦ rw (ltb_of n 100 p) (omega arith)
    | no b ↦ rw (not_ltb_of n 100 b) (elim (dec_lt n 1000) [
      | yes p ↦ rw (ltb_of n 1000 p) (omega arith)
      | no c ↦ rw (not_ltb_of n 1000 c) (elim (dec_lt n 100_000) [
        | yes p ↦ rw (ltb_of n 100_000 p) (omega arith)
        | no d ↦ rw (not_ltb_of n 100_000 d) (omega arith)
      ])
    ])
  ])
]
  where
    ltb_of : (a b : ℕ) → a < b → ltb a b ≡ true
    ltb_of a b h = ground arith

    not_ltb_of : (a b : ℕ) → ¬ (a < b) → ltb a b ≡ false
    not_ltb_of a b h = ground arith

-- All the writes in one text.
abbrev pub prepend : List ℕ → Option (List ℕ) → Option (List ℕ)
prepend s none = none
prepend s (some t) = some (s ++ t)

abbrev pub flatten : List (Option (List ℕ)) → Option (List ℕ)
flatten [] = some []
flatten (none ∷ writes) = none
flatten (some s ∷ writes) = prepend s (flatten writes)

IsDigit-NoComma : (s : List ℕ) → All IsDigit s → NoComma s
IsDigit-NoComma [] all = tt
IsDigit-NoComma (c ∷ s) all = (λ e. omega (arith, all.0, e), IsDigit-NoComma s all.1)

signed-NoComma : (s : List ℕ) → All (λ (c : ℕ). IsDigit c ⊎ (c ≡ b'-')) s → NoComma s
signed-NoComma [] all = tt
signed-NoComma (c ∷ s) all = (λ e. omega (arith, all.0, e), signed-NoComma s all.1)

get_or-All : (P : ℕ → Type 0) (xs : List ℕ) (i d : ℕ) → All P xs → P d → P (get_or xs i d)
get_or-All P [] i d all default = default
get_or-All P (x ∷ xs) zero d all default = all.0
get_or-All P (x ∷ xs) (suc i) d all default = get_or-All P xs i d all.1 default

table-NoComma : NoComma (codes "0123456789ABCDEF")
table-NoComma = omega arith

hex_digits-NoComma : (n : ℕ) → NoComma (hex_digits n)
unfolding hex_digits
hex_digits-NoComma n = (
  get_or-All (λ c. c ≢ b',') (codes "0123456789ABCDEF") (n / 16 % 16) 0 table-NoComma (omega arith),
  (
    get_or-All (λ c. c ≢ b',') (codes "0123456789ABCDEF") (n % 16) 0 table-NoComma (omega arith),
    tt,
  ),
)

hex_colon-NoComma : (n : ℕ) (s : List ℕ) → NoComma s → NoComma (hex_digits n ++ (b':' ∷ s))
hex_colon-NoComma n s free =
    All-append _ (hex_digits n) (b':' ∷ s) (hex_digits-NoComma n) (omega arith, free)

mac_text-NoComma : (m : Mac) → NoComma (mac_text m)
mac_text-NoComma m = hex_colon-NoComma m.b0 _ (
    hex_colon-NoComma m.b1 _ (
      hex_colon-NoComma m.b2 _
        (hex_colon-NoComma m.b3 _ (hex_colon-NoComma m.b4 _ (hex_digits-NoComma m.b5)))))

length-mac_text : (m : Mac) → length (mac_text m) ≡ 17
unfolding hex_digits
length-mac_text m = refl

mac_writes : (m : Mac) → flatten (column_writes (Column.address m)) ≡ some (mac_text m)
unfolding hex_digits
mac_writes m = refl

-- The text of a column.
pub record IsText (c : Column) (s : List ℕ) : Type 0 where
  pub text : flatten (column_writes c) ≡ some s
  pub shows : Shows c s
  pub free : NoComma s
  pub short : length s ≤ width c

pub column-IsText : (c : Column) → IsColumn c → (s : List ℕ) × IsText c s
column-IsText (Column.constant t) ok =
    (t, record { text = ap some (append_nil t); shows = refl; free = ok; short = omega arith })
column-IsText (Column.number n) ok =
    let (one, ten, fits) = digits_of_lem n ok in
    let (s, made, d) = u32_digits_lem (digits_of n) n one ten fits in
    (
      s,
      record {
        text = rw made (ap some (append_nil s));
        shows = (d.reads, d.digits, d.some_digit);
        free = IsDigit-NoComma s d.digits;
        short = d.short;
      },
    )
column-IsText (Column.integer z) ok =
    let (one, ten, fits) = digits_of_lem (unsigned_abs z) ok in
    let (s, made, reads, all, short) = i32_digits_lem (digits_of (unsigned_abs z)) z one ten fits in
    (
      s,
      record {
        text = rw made (ap some (append_nil s));
        shows = reads;
        free = signed-NoComma s all;
        short = short;
      },
    )
column-IsText (Column.address m) ok = (
  mac_text m,
  record {
    text = mac_writes m;
    shows = refl;
    free = mac_text-NoComma m;
    short = omega (arith, length-mac_text m);
  },
)
column-IsText (Column.seconds t) ok =
    let seconds : ℕ = t / 1_000_000 in
    let (one, ten, fits) = digits_of_lem (t / 1_000_000) (omega arith) in
    let (a, made, d) = u32_digits_lem (digits_of (t / 1_000_000)) (t / 1_000_000) one ten fits in
    let (reads, all, six) = pad6_digits_lem (t % 1_000_000) (omega arith) in
    let b : List ℕ = pad6_digits (t % 1_000_000) in
    (
      a ++ (b'.' ∷ b),
      record {
        text = rw made (ap (λ l. some (a ++ (b'.' ∷ l))) (append_nil b));
        shows = (a, b, refl, omega (arith, d.reads, reads), six);
        free =
            All-append _ a (b'.' ∷ b) (IsDigit-NoComma a d.digits)
              ((λ e. omega (arith, e)), IsDigit-NoComma b all);
        short = omega (arith, d.short, six, length-append a (b'.' ∷ b));
      },
    )
