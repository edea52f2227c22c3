-- ===== src/Stats/Table.antt =====
-- The addresses of the per-transmitter table.
use esp_csi_rs.Base.{
  ℕ, zero, suc, ◌≤◌, ◌≡◌, refl, sym, ap, subst, ◌∙◌, Bool, true, false, Bool-cases, Option-cases,
  Option, none, some, List, [], ◌∷◌, ◌++◌, map, ltb, ltb→lt, ◌==◌, inl, inr, if◌then◌else◌, length,
  get_or, set, All, length-append, length-set, arith,
}
use esp_csi_rs.Mac.{Mac, mac_eq}
use esp_csi_rs.Stats.Run.{Event, apply, run}
use esp_csi_rs.Stats.{
  Stats, new_stats, stats_begin_run, record_loss, record_cur_bb_format, record_tx_frame,
  record_collector_rx_drop, reset, count_gap, Cause, TxStats, max_tracked_tx, find, lru, fresh,
  entry, touch, track, resync_table, mark,
}

abbrev macs : List TxStats → List Mac
macs [] = []
macs (e ∷ es) = e.mac ∷ macs es

-- No address is in the list.
abbrev IsNew : Mac → List Mac → Type 0
IsNew mac ms = All (λ m. mac_eq m mac ≡ false) ms

abbrev Distinct : List Mac → Type 0
Distinct [] = Unit {0}
Distinct (m ∷ ms) = IsNew m ms × Distinct ms

eq_sym : (a b : ℕ) → (a == b) ≡ (b == a)
eq_sym a b = ground arith

mac_eq_sym : (m k : Mac) → mac_eq m k ≡ mac_eq k m
mac_eq_sym m k =
    rw
      (
        eq_sym m.b0 k.b0,
        eq_sym m.b1 k.b1,
        eq_sym m.b2 k.b2,
        eq_sym m.b3 k.b3,
        eq_sym m.b4 k.b4,
        eq_sym m.b5 k.b5,
      )
      refl

IsNew-append :
    (mac k : Mac) (ms : List Mac) → IsNew k ms → mac_eq mac k ≡ false → IsNew k (ms ++ (mac ∷ []))
IsNew-append mac k [] h ne = (ne, tt)
IsNew-append mac k (m ∷ ms) h ne = (h.0, IsNew-append mac k ms h.1 ne)

Distinct-append :
    (mac : Mac) (ms : List Mac) → Distinct ms → IsNew mac ms → Distinct (ms ++ (mac ∷ []))
Distinct-append mac [] d h = (tt, tt)
Distinct-append mac (m ∷ ms) d h =
    (IsNew-append mac m ms d.0 (mac_eq_sym mac m ∙ h.0), Distinct-append mac ms d.1 h.1)

IsNew-set :
    (mac k : Mac) (ms : List Mac) (i : ℕ)
    → IsNew k ms
    → mac_eq mac k ≡ false
    → IsNew k (set ms i mac)
IsNew-set mac k [] i h ne = tt
IsNew-set mac k (m ∷ ms) zero h ne = (ne, h.1)
IsNew-set mac k (m ∷ ms) (suc i) h ne = (h.0, IsNew-set mac k ms i h.1 ne)

Distinct-set :
    (mac : Mac) (ms : List Mac) (i : ℕ) → Distinct ms → IsNew mac ms → Distinct (set ms i mac)
Distinct-set mac [] i d h = tt
Distinct-set mac (m ∷ ms) zero d h = (h.1, d.1)
Distinct-set mac (m ∷ ms) (suc i) d h =
    (IsNew-set mac m ms i d.0 (mac_eq_sym mac m ∙ h.0), Distinct-set mac ms i d.1 h.1)

find-none : (mac : Mac) (t : List TxStats) → find mac t ≡ none → IsNew mac (macs t)
unfolding find
find-none mac [] e = tt
find-none mac (x ∷ xs) e = elim (Bool-cases (mac_eq x.mac mac)) [
  | inl same ↦ let e' : find mac (x ∷ xs) ≡ some 0 = rw (find, same) refl in cc
  | inr other ↦ (elim (Option-cases (find mac xs)) [
    | inl rest ↦ (other, find-none mac xs rest)
    | inr (i, at') ↦ let e' : find mac (x ∷ xs) ≡ some (suc i) = rw (find, other, at') refl in cc
  ])
]

macs-append : (t : List TxStats) (e : TxStats) → macs (t ++ (e ∷ [])) ≡ macs t ++ (e.mac ∷ [])
macs-append [] e = refl
macs-append (x ∷ xs) e = ap (λ l. x.mac ∷ l) (macs-append xs e)

macs-set : (t : List TxStats) (i : ℕ) (e : TxStats) → macs (set t i e) ≡ set (macs t) i e.mac
macs-set [] i e = refl
macs-set (x ∷ xs) zero e = refl
macs-set (x ∷ xs) (suc i) e = ap (λ l. x.mac ∷ l) (macs-set xs i e)

-- Writing an entry back under its own address changes no address.
macs-same :
    (t : List TxStats) (i : ℕ) (d e : TxStats)
    → e.mac ≡ (get_or t i d).mac
    → macs (set t i e) ≡ macs t
macs-same [] i d e h = refl
macs-same (x ∷ xs) zero d e h = ap (λ m. m ∷ macs xs) h
macs-same (x ∷ xs) (suc i) d e h = ap (λ l. x.mac ∷ l) (macs-same xs i d e h)

macs-resync : (b : Bool) (t : List TxStats) → macs (resync_table b t) ≡ macs t
macs-resync false t = refl
macs-resync true t = go t
  where
    go : (t : List TxStats) → macs (map mark t) ≡ macs t
    go [] = refl
    go (x ∷ xs) = ap (λ l. x.mac ∷ l) (go xs)

length-macs : (t : List TxStats) → length (macs t) ≡ length t
length-macs [] = refl
length-macs (x ∷ xs) = ap suc (length-macs xs)

touch-mac :
    (now : ℕ) (seq : Option ℕ) (retry : Option Bool) (e : TxStats)
    → (touch now seq retry e).0.mac ≡ e.mac
unfolding touch
touch-mac now none none e = refl
touch-mac now none (some true) e = refl
touch-mac now none (some false) e = refl
touch-mac now (some n) none e = refl
touch-mac now (some n) (some true) e = refl
touch-mac now (some n) (some false) e = refl

-- The table's invariant.
pub record IsTable (t : List TxStats) : Type 0 where
  pub size : length t ≤ max_tracked_tx
  pub distinct : Distinct (macs t)

pub IsTable-entry :
    (mac : Mac) (seq : Option ℕ) (t : List TxStats) → IsTable t → IsTable (entry mac seq t).0
unfolding entry
IsTable-entry mac seq t h = elim (Option-cases (find mac t)) [
  | inr (i, found) ↦ rw (entry, found) h
  | inl missing ↦ (elim (Bool-cases (ltb (length t) max_tracked_tx)) [
    | inl room ↦
        rw (entry, missing, room, if◌then◌else◌)
          (record {
            size = omega (arith, length-append t (fresh mac seq ∷ []), ltb→lt _ _ room);
            distinct =
                subst Distinct (sym (macs-append t (fresh mac seq)))
                  (Distinct-append mac (macs t) h.distinct (find-none mac t missing));
          })
    | inr full ↦
        rw (entry, missing, full, if◌then◌else◌)
          (record {
            size =
                subst (λ n. n ≤ max_tracked_tx) (sym (length-set t (lru t) (fresh mac seq))) h.size;
            distinct =
                subst Distinct (sym (macs-set t (lru t) (fresh mac seq)))
                  (Distinct-set mac (macs t) (lru t) h.distinct (find-none mac t missing));
          })
  ])
]

pub IsTable-track :
    (now : ℕ) (mac : Mac) (seq : Option ℕ) (retry : Option Bool) (t : List TxStats)
    → IsTable t
    → IsTable (track now mac seq retry t).0
unfolding track
IsTable-track now mac seq retry t h =
    let k : IsTable (entry mac seq t).0 = IsTable-entry mac seq t h in
    let x : TxStats = get_or (entry mac seq t).0 (entry mac seq t).1 (fresh mac seq) in
    record {
      size =
          rw (length-set (entry mac seq t).0 (entry mac seq t).1 (touch now seq retry x).0) k.size;
      distinct =
          rw
            (macs-same (entry mac seq t).0 (entry mac seq t).1 (fresh mac seq)
              (touch now seq retry x).0 (touch-mac now seq retry x))
            k.distinct;
    }

IsTable-resync : (b : Bool) (t : List TxStats) → IsTable t → IsTable (resync_table b t)
IsTable-resync b t h =
    let same : macs (resync_table b t) ≡ macs t = macs-resync b t in
    record {
      size = omega (arith, h.size, ap length same, length-macs t, length-macs (resync_table b t));
      distinct = subst Distinct (sym same) h.distinct;
    }

record_loss-per_tx : (c : Cause) (n : ℕ) (s : Stats) → (record_loss c n s).per_tx ≡ s.per_tx
unfolding record_loss
record_loss-per_tx Cause.oversize n s = refl
record_loss-per_tx Cause.queue_full n s = refl
record_loss-per_tx Cause.seq_gap n s = refl

count_gap-per_tx : (gap : ℕ) (s : Stats) → (count_gap gap s).per_tx ≡ s.per_tx
unfolding count_gap
count_gap-per_tx gap s = elim (Bool-cases (ltb 0 gap)) [
  | inl e ↦ rw (e, if◌then◌else◌) (record_loss-per_tx Cause.seq_gap gap s)
  | inr e ↦ rw (e, if◌then◌else◌) refl
]

IsTable-apply : (e : Event) (s : Stats) → IsTable s.per_tx → IsTable (apply e s).per_tx
unfolding apply stats_begin_run reset record_collector_rx_drop record_tx_frame record_cur_bb_format
IsTable-apply (Event.begin_run now) s h = record { size = omega arith; distinct = tt }
IsTable-apply (Event.detection enabled) s h = h
IsTable-apply Event.output_toggled s h = h
IsTable-apply Event.transmitted s h = h
IsTable-apply Event.received s h = h
IsTable-apply Event.filtered s h = h
IsTable-apply Event.suppressed s h = h
IsTable-apply Event.collector_drop s h =
    subst IsTable (sym (record_loss-per_tx Cause.queue_full 1 s)) h
IsTable-apply (Event.loss cause n) s h = subst IsTable (sym (record_loss-per_tx cause n s)) h
IsTable-apply (Event.bb_format fmt) s h = elim (Bool-cases (ltb fmt 8)) [
  | inl e ↦ rw (e, if◌then◌else◌) h
  | inr e ↦ rw (e, if◌then◌else◌) h
]
IsTable-apply (Event.frame mac seq retry) s h =
    subst IsTable (sym (count_gap-per_tx _ _))
      (IsTable-track s.per_tx_clock mac seq retry _ (IsTable-resync s.reset_seq_tracker s.per_tx h))

run_keeps : (es : List Event) (s : Stats) → IsTable s.per_tx → IsTable (run es s).per_tx
unfolding run
run_keeps [] s h = h
run_keeps (e ∷ es) s h = run_keeps es (apply e s) (IsTable-apply e s h)

-- From power-on, after any sequence of events, at most 16 transmitters are tracked, and no
-- address is tracked twice.
pub IsTable-run : (es : List Event) → IsTable (run es new_stats).per_tx
IsTable-run es = run_keeps es new_stats (record { size = omega arith; distinct = tt })
