-- ===== src/Initiator/Numbers.antt =====
-- The sequence numbers of the control packets that an initiator sends.
use esp_csi_rs.Base.{
  ℕ, zero, suc, ◌+◌, ◌%◌, ◌^◌, ◌≡◌, refl, sym, ap, subst, Bool-cases, Option-cases, inl, inr, Bool,
  true, false, Option, none, some, List, [], ◌∷◌, ◌++◌, if◌then◌else◌, leb, arith,
}
use esp_csi_rs.EspNow.{EspNowConfig, EspNowDriver, IoTaskConfig}
use esp_csi_rs.Protocol.{ControlPacket}
use esp_csi_rs.Session.{Session}
use esp_csi_rs.Stats.{Stats}
use esp_csi_rs.Pool.{Pool, receive}
use esp_csi_rs.Initiator.{
  Initiator, Sending, arrived, control_frame, handle_responder_packet, handle_from, rx_burst,
  tx_burst, rx_step, pass, run, start,
}
use esp_csi_rs.Pacing.{Turn, is_sent}

-- Sends from the number `n` on: each carries the count of the successful ones before it.
abbrev pub IsNumbered : Bool → ℕ → List Sending → Type 0
IsNumbered reports n [] = Unit {0}
IsNumbered reports n (x ∷ xs) =
    (x.packet ≡ record { initiator_reports = reports; sequence_number = n % 2 ^ 32 })
    × IsNumbered reports (if is_sent x.result then suc n else n) xs

-- The successful sends, and the others.
abbrev pub sent_count : List Sending → ℕ
sent_count [] = 0
sent_count (x ∷ xs) = (if is_sent x.result then 1 else 0) + sent_count xs

abbrev pub failed_count : List Sending → ℕ
failed_count [] = 0
failed_count (x ∷ xs) = (if is_sent x.result then 0 else 1) + failed_count xs

-- The state after `n` successful sends and `k` others.
pub record HasSent {D : Type 0} (n k : ℕ) (s : Initiator D) : Type 0 where
  pub number : s.control_sequence ≡ n % 2 ^ 32
  pub queued : s.tx_queued_count ≡ n % 2 ^ 64
  pub confirmed : s.tx_confirmed_count ≡ n % 2 ^ 64
  pub failed : s.tx_failed_count ≡ k % 2 ^ 64

pub sent_count-append :
    (xs ys : List Sending) → sent_count (xs ++ ys) ≡ sent_count xs + sent_count ys
sent_count-append [] ys = omega arith
sent_count-append (x ∷ xs) ys = omega (arith, sent_count-append xs ys)

failed_count-append :
    (xs ys : List Sending) → failed_count (xs ++ ys) ≡ failed_count xs + failed_count ys
failed_count-append [] ys = omega arith
failed_count-append (x ∷ xs) ys = omega (arith, failed_count-append xs ys)

after_one : (b : Bool) (n k : ℕ) → (if b then suc n else n) + k ≡ n + ((if b then 1 else 0) + k)
after_one true n k = omega arith
after_one false n k = omega arith

pub IsNumbered-append :
    (reports : Bool) (n : ℕ) (xs ys : List Sending)
    → IsNumbered reports n xs
    → IsNumbered reports (n + sent_count xs) ys
    → IsNumbered reports n (xs ++ ys)
IsNumbered-append reports n [] ys h k =
    let e : n + 0 ≡ n = omega arith in subst (λ t. IsNumbered reports t ys) e k
IsNumbered-append reports n (x ∷ xs) ys h k = (
  h.0,
  IsNumbered-append reports (if is_sent x.result then suc n else n) xs ys h.1 (
      subst (λ t. IsNumbered reports t ys) (sym (after_one (is_sent x.result) n (sent_count xs)))
        k),
)

-- A property of both branches.
elim-Bool {ℓ κ} :
    {A : Type ℓ} (P : A → Type κ) (b : Bool) (x y : A)
    → P x
    → P y
    → P (elim b [ true ↦ x | false ↦ y ])
elim-Bool P true x y h k = h
elim-Bool P false x y h k = k

elim-Option {ℓ ℓ' κ} :
    {A : Type ℓ} {B : Type ℓ'} (P : B → Type κ) (o : Option A) (x : B) (g : A → B)
    → P x
    → ((a : A) → P (g a))
    → P (elim o [ none ↦ x | some a ↦ g a ])
elim-Option P none x g h k = h
elim-Option P (some a) x g h k = k a

module _ {D : Type 0} (api : EspNowDriver D) (c5 has_ax : Bool) (config : EspNowConfig)
    (take_from_bytes : List ℕ → Option (Unit {0} × List ℕ))
    (to_slice : ControlPacket → ℕ → Option (List ℕ)) (reports : Bool) where
  -- Receiving changes no count.
  rx_burst-HasSent :
      (tx_active : Bool) (budget rx_packets n k : ℕ) (turn : Turn) (s : Initiator D)
      → HasSent n k s
      → HasSent n k (
          rx_burst api c5 has_ax config take_from_bytes to_slice reports tx_active budget rx_packets
            turn s)
  unfolding rx_burst handle_responder_packet
  rx_burst-HasSent tx_active zero rx_packets n k turn s h = h
  rx_burst-HasSent tx_active (suc budget) rx_packets n k turn s h =
      elim-Bool (HasSent n k) _ _ _ h (
        elim-Option (HasSent n k) (receive s.pool).1 s
          (λ f.
            rx_burst api c5 has_ax config take_from_bytes to_slice reports tx_active budget
              (rx_packets + 1) turn
              (handle_from api c5 has_ax config take_from_bytes to_slice reports (receive s.pool).0
                f s))
          h
          λ f. rx_burst-HasSent tx_active budget (rx_packets + 1) n k turn _ (record {
            number = h.number;
            queued = h.queued;
            confirmed = h.confirmed;
            failed = h.failed;
          }))

  -- Some sends, and the counts behind them.
  record Sends (n k : ℕ) (out : Initiator D × List Sending) : Type 0 where
    pub numbered : IsNumbered reports n out.1
    pub counted : HasSent (n + sent_count out.1) (k + failed_count out.1) out.0

  none-Sends : (n k : ℕ) (s : Initiator D) → HasSent n k s → Sends n k (s, [])
  none-Sends n k s h =
      let e : n + 0 ≡ n = omega arith in
      let e' : k + 0 ≡ k = omega arith in record { numbered = tt; counted = rw (e, e') h }

  -- One send at most.
  tx_burst-Sends :
      (adaptive : Bool) (turn : Turn) (n k : ℕ) (s : Initiator D)
      → HasSent n k s
      → Sends n k
          (tx_burst api c5 has_ax config take_from_bytes to_slice reports 1 0 adaptive turn s)
  unfolding tx_burst
  tx_burst-Sends adaptive turn n k s h =
      let packet : ControlPacket = record {
        initiator_reports = reports;
        sequence_number = s.control_sequence;
      } in
      let same : packet ≡ record { initiator_reports = reports; sequence_number = n % 2 ^ 32 } =
        ap (λ c. record { initiator_reports = reports; sequence_number = c }) h.number in
      elim (Bool-cases (leb s.pacing.next_tx_us (turn.now_us 0))) [
        | inr e ↦ rw (tx_burst, e) (none-Sends n k s h)
        | inl e ↦ (elim (Option-cases (control_frame to_slice config packet)) [
          | inl o ↦ rw (tx_burst, e, o) (none-Sends n k s h)
          | inr o ↦ (elim (Bool-cases (is_sent (turn.result 0))) [
            | inl b ↦
                rw (tx_burst, e, o.1, b)
                  (record {
                    numbered = (same, tt);
                    counted = rw b (record {
                      number = omega (arith, h.number);
                      queued = omega (arith, h.queued);
                      confirmed = omega (arith, h.confirmed);
                      failed = omega (arith, h.failed);
                    });
                  })
            | inr b ↦
                rw (tx_burst, e, o.1, b)
                  (record {
                    numbered = (same, tt);
                    counted = rw b (record {
                      number = omega (arith, h.number);
                      queued = omega (arith, h.queued);
                      confirmed = omega (arith, h.confirmed);
                      failed = omega (arith, h.failed);
                    });
                  })
          ])
        ])
      ]

  rx_step-HasSent :
      (io_tasks : IoTaskConfig) (turn : Turn) (n k : ℕ) (s : Initiator D)
      → HasSent n k s
      → HasSent n k (rx_step api c5 has_ax config take_from_bytes to_slice reports io_tasks turn s)
  unfolding rx_step
  rx_step-HasSent io_tasks turn n k s h =
      let got = rx_burst-HasSent io_tasks.tx_enabled _ 0 n k turn s h in
      record {
        number = got.number;
        queued = got.queued;
        confirmed = got.confirmed;
        failed = got.failed;
      }

  arrived-HasSent :
      (turn : Turn) (n k : ℕ) (s : Initiator D) → HasSent n k s → HasSent n k (arrived turn s)
  arrived-HasSent turn n k s h = record {
    number = h.number;
    queued = h.queued;
    confirmed = h.confirmed;
    failed = h.failed;
  }

  if-HasSent :
      (b : Bool) (n k : ℕ) (x y : Initiator D)
      → HasSent n k x
      → HasSent n k y
      → HasSent n k (if b then x else y)
  if-HasSent true n k x y h h' = h
  if-HasSent false n k x y h h' = h'

  if-Sends :
      (b : Bool) (n k : ℕ) (x y : Initiator D × List Sending)
      → Sends n k x
      → Sends n k y
      → Sends n k (if b then x else y)
  if-Sends true n k x y h h' = h
  if-Sends false n k x y h h' = h'

  pass-Sends :
      (io_tasks : IoTaskConfig) (turn : Turn) (n k : ℕ) (s : Initiator D)
      → HasSent n k s
      → let out = pass api c5 has_ax config take_from_bytes to_slice reports io_tasks turn s in
        Sends n k (out.0, out.1)
  unfolding pass
  pass-Sends io_tasks turn n k s h =
      let start = arrived-HasSent turn n k s h in
      let got =
        if-HasSent io_tasks.rx_enabled n k _ _ (rx_step-HasSent io_tasks turn n k _ start) start in
      if-Sends io_tasks.tx_enabled n k _ _ (tx_burst-Sends _ turn n k _ got) (none-Sends n k _ got)

  -- The sends of a pass, then those of the rest.
  append-Sends :
      (n k : ℕ) (xs ys : List Sending) (s s' : Initiator D)
      → Sends n k (s, xs)
      → Sends (n + sent_count xs) (k + failed_count xs) (s', ys)
      → Sends n k (s', xs ++ ys)
  append-Sends n k xs ys s s' h h' = record {
    numbered = IsNumbered-append reports n xs ys h.numbered h'.numbered;
    counted =
        rw (sent_count-append xs ys, failed_count-append xs ys)
          (record {
            number = omega (arith, h'.counted.number);
            queued = omega (arith, h'.counted.queued);
            confirmed = omega (arith, h'.counted.confirmed);
            failed = omega (arith, h'.counted.failed);
          });
  }

  if_pair :
      (b : Bool) (n k : ℕ) (x y : Initiator D) (xs ys : List Sending)
      → Sends n k (x, xs)
      → Sends n k (y, ys)
      → Sends n k (if b then x else y, if b then xs else ys)
  if_pair true n k x y xs ys h h' = h
  if_pair false n k x y xs ys h h' = h'

  run-Sends :
      (io_tasks : IoTaskConfig) (turns : List Turn) (n k : ℕ) (s : Initiator D)
      → HasSent n k s
      → Sends n k (run api c5 has_ax config take_from_bytes to_slice reports io_tasks turns s)
  unfolding run
  run-Sends io_tasks [] n k s h = none-Sends n k s h
  run-Sends io_tasks (turn ∷ turns) n k s h =
      let out = pass api c5 has_ax config take_from_bytes to_slice reports io_tasks turn s in
      let now : Sends n k (out.0, out.1) = pass-Sends io_tasks turn n k s h in
      let rest =
        run-Sends io_tasks turns (n + sent_count out.1) (k + failed_count out.1) out.0
          now.counted in
      if_pair turn.stop n k _ _ _ _ now (append-Sends n k _ _ _ _ now rest)

  -- From the start of an initiator, over any passes of its loop: each control packet carries the
  -- number of successful sends before it, modulo 2^32, so that a failed one is sent again under
  -- its number; and the queued and the failed counter are the numbers of successful and of other
  -- sends, modulo 2^64.
  pub run-IsNumbered :
      (frequency_hz : Option ℕ) (io_tasks : IoTaskConfig) (now_us : ℕ) (pool : Pool)
      (session : Session) (stats : Stats) (d : D) (turns : List Turn)
      → let s : Initiator D =
          start api c5 has_ax config take_from_bytes to_slice reports frequency_hz io_tasks now_us
            pool session stats d in
        let out = run api c5 has_ax config take_from_bytes to_slice reports io_tasks turns s in
        IsNumbered reports 0 out.1
        × ((out.0.tx_queued_count ≡ sent_count out.1 % 2 ^ 64)
            × (out.0.tx_failed_count ≡ failed_count out.1 % 2 ^ 64))
  unfolding start
  run-IsNumbered frequency_hz io_tasks now_us pool session stats d turns =
      let s : Initiator D =
        start api c5 has_ax config take_from_bytes to_slice reports frequency_hz io_tasks now_us
          pool session stats d in
      let fresh : HasSent 0 0 s = record {
        number = refl;
        queued = refl;
        confirmed = refl;
        failed = refl;
      } in
      let all' = run-Sends io_tasks turns 0 0 s fresh in
      (all'.numbered, (omega (arith, all'.counted.queued), omega (arith, all'.counted.failed)))
