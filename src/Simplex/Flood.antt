-- ===== src/Simplex/Flood.antt =====
-- Where the simplex source's flood goes, and its numbers.
use esp_csi_rs.Base.{
  ℕ, ◌+◌, ◌%◌, ◌^◌, ◌≡◌, refl, sym, ap, subst, ◌⊎◌, inl, inr, Bool-cases, Option-cases, Bool, true,
  false, not, Option, List, [], ◌∷◌, if◌then◌else◌, is_some, All, All-append, arith,
}
use esp_csi_rs.Mac.{Mac}
use esp_csi_rs.EspNow.{EspNowConfig, EspNowDriver}
use esp_csi_rs.Protocol.{ControlPacket, initiator_magic_number, parse_with_magic}
use esp_csi_rs.Pool.{PoolFrame, data_of}
use esp_csi_rs.Pacing.{is_sent}
use esp_csi_rs.Initiator.{Sending}
use esp_csi_rs.Initiator.Numbers.{IsNumbered, sent_count, sent_count-append, IsNumbered-append}
use esp_csi_rs.Simplex.{
  Source, SourcePhase, Round, framed, flood_buf_len, flood, flood_round, flood_all, check_peer,
  after_flood, discover, lock_peer,
}

module _ {D : Type 0} (api : EspNowDriver D) (has_ax : Bool) (config : EspNowConfig)
    (take_control : List ℕ → Option (ControlPacket × List ℕ))
    (control_to_slice : ControlPacket → ℕ → Option (List ℕ))
    (beacon_to_slice : Unit {0} → ℕ → Option (List ℕ)) (freq_hz : Option ℕ) (m : Mac) where
  -- Locked onto `m` or stopped, after `n` successful sends.
  pub record IsFlooding (n : ℕ) (s : Source D) : Type 0 where
    pub phase : (s.phase ≡ SourcePhase.flooding m) ⊎ (s.phase ≡ SourcePhase.stopped)
    pub number : s.seq ≡ n % 2 ^ 32

  -- Some rounds' sends.
  record Floods (n : ℕ) (out : Source D × List Sending) : Type 0 where
    pub numbered : IsNumbered false n out.1
    pub addressed : All (λ (x : Sending). x.dest ≡ m) out.1
    pub after : IsFlooding (n + sent_count out.1) out.0

  or_stopped :
      (b : Bool)
      → ((if b then SourcePhase.stopped else SourcePhase.flooding m) ≡ SourcePhase.flooding m)
        ⊎ ((if b then SourcePhase.stopped else SourcePhase.flooding m) ≡ SourcePhase.stopped)
  or_stopped true = inr refl
  or_stopped false = inl refl

  none-Floods : (n : ℕ) (s : Source D) → IsFlooding n s → Floods n (s, [])
  none-Floods n s h =
      let e : n + 0 ≡ n = omega arith in record { numbered = tt; addressed = tt; after = rw e h }

  flood-Floods :
      (n : ℕ) (round : Round) (s : Source D)
      → s.seq ≡ n % 2 ^ 32
      → Floods n
          (flood api has_ax config take_control control_to_slice beacon_to_slice freq_hz m round s)
  unfolding flood check_peer after_flood
  flood-Floods n round s h =
      let packet : ControlPacket = record { initiator_reports = false; sequence_number = s.seq } in
      let message : Option (List ℕ) =
        framed control_to_slice packet initiator_magic_number (not (is_some config.peer_mac))
          flood_buf_len in
      let same : packet ≡ record { initiator_reports = false; sequence_number = n % 2 ^ 32 } =
        ap (λ c. record { initiator_reports = false; sequence_number = c }) h in
      elim (Bool-cases round.stop) [
        | inl e ↦ rw (flood, e) (none-Floods n _ (record { phase = inr refl; number = h }))
        | inr e ↦ (elim (Option-cases message) [
          | inl o ↦ rw (flood, e, o) (none-Floods n _ (record { phase = inr refl; number = h }))
          | inr o ↦ (elim (Bool-cases (is_sent round.result)) [
            | inl b ↦
                rw (flood, e, o.1, b)
                  (record {
                    numbered = (same, tt);
                    addressed = (refl, tt);
                    after = rw b (record { phase = or_stopped _; number = omega (arith, h) });
                  })
            | inr b ↦
                rw (flood, e, o.1, b)
                  (record {
                    numbered = (same, tt);
                    addressed = (refl, tt);
                    after = rw b (record { phase = or_stopped _; number = omega (arith, h) });
                  })
          ])
        ])
      ]

  peer_of : SourcePhase → Mac
  peer_of (SourcePhase.flooding k) = k
  peer_of _ = m

  flood_round-Floods :
      (phase : SourcePhase) (n : ℕ) (round : Round) (s : Source D)
      → ((phase ≡ SourcePhase.flooding m) ⊎ (phase ≡ SourcePhase.stopped))
      → IsFlooding n s
      → Floods n (
          flood_round api has_ax config take_control control_to_slice beacon_to_slice phase freq_hz
            round s)
  unfolding flood_round peer_of
  flood_round-Floods SourcePhase.discovering n round s (inl e) h = absurd cc
  flood_round-Floods SourcePhase.discovering n round s (inr e) h = absurd cc
  flood_round-Floods SourcePhase.stopped n round s e h = none-Floods n s h
  flood_round-Floods (SourcePhase.flooding k) n round s (inl e) h =
      subst
        (λ t.
          Floods n (
            flood api has_ax config take_control control_to_slice beacon_to_slice freq_hz t round
              s))
        (sym (ap peer_of e)) (flood-Floods n round s h.number)
  flood_round-Floods (SourcePhase.flooding k) n round s (inr e) h = absurd cc

  flood_all-Floods :
      (n : ℕ) (rounds : List Round) (s : Source D)
      → IsFlooding n s
      → Floods n (
          flood_all api has_ax config take_control control_to_slice beacon_to_slice freq_hz rounds
            s)
  unfolding flood_all
  flood_all-Floods n [] s h = none-Floods n s h
  flood_all-Floods n (round ∷ rounds) s h =
      let out : Source D × List Sending =
        flood_round api has_ax config take_control control_to_slice beacon_to_slice s.phase freq_hz
          round s in
      let out' : Source D × List Sending =
        flood_all api has_ax config take_control control_to_slice beacon_to_slice freq_hz rounds
          out.0 in
      let now : Floods n out = flood_round-Floods s.phase n round s h.phase h in
      let rest : Floods (n + sent_count out.1) out' =
        flood_all-Floods (n + sent_count out.1) rounds out.0 now.after in
      record {
        numbered = IsNumbered-append false n out.1 out'.1 now.numbered rest.numbered;
        addressed = All-append _ out.1 out'.1 now.addressed rest.addressed;
        after = record {
          phase = rest.after.phase;
          number = rw (sent_count-append out.1 out'.1) (omega (arith, rest.after.number));
        };
      }

-- A source that has not sent yet and hears a peer's beacon while it discovers: over any rounds of
-- the flood, every frame goes to that beacon's sender, under the number of successful sends
-- before it, modulo 2^32.
pub flood_all-discover :
    {D : Type 0} (api : EspNowDriver D) (has_ax : Bool) (config : EspNowConfig)
    (take_control : List ℕ → Option (ControlPacket × List ℕ))
    (control_to_slice : ControlPacket → ℕ → Option (List ℕ))
    (beacon_to_slice : Unit {0} → ℕ → Option (List ℕ)) (freq_hz : Option ℕ) (f : PoolFrame)
    (now_us : ℕ) (rounds : List Round) (s : Source D)
    → s.seq ≡ 0
    → is_some (parse_with_magic take_control (data_of f) initiator_magic_number true) ≡ true
    → let s' : Source D =
        (discover api has_ax config take_control control_to_slice beacon_to_slice f now_us s).0 in
      let out =
        flood_all api has_ax config take_control control_to_slice beacon_to_slice freq_hz rounds
          s' in
      All (λ (x : Sending). x.dest ≡ f.info.src_address) out.1 × IsNumbered false 0 out.1
unfolding discover lock_peer
flood_all-discover api has_ax config take_control control_to_slice beacon_to_slice freq_hz f now_us
      rounds s fresh heard =
    let all' =
      flood_all-Floods api has_ax config take_control control_to_slice beacon_to_slice freq_hz
        f.info.src_address 0 rounds _
        (record { phase = rw heard (inl refl); number = rw heard fresh }) in
    (all'.addressed, all'.numbered)
