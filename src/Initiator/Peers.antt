-- ===== src/Initiator/Peers.antt =====
-- The peers that an initiator in auto pairing knows, and the address it sends to.
use esp_csi_rs.Base.{
  ℕ, ◌≤◌, ◌≡◌, refl, ap, subst, ◌∙◌, Bool-cases, inl, inr, Bool, true, false, not, ◌&&◌, Option,
  none, List, [], ◌∷◌, ◌++◌, if◌then◌else◌, if-false, ltb, length, length-append, arith,
}
use esp_csi_rs.Mac.{Mac, mac_eq}
use esp_csi_rs.EspNow.{EspNowConfig, EspNowDriver}
use esp_csi_rs.Protocol.{ControlPacket}
use esp_csi_rs.Pool.{PoolFrame}
use esp_csi_rs.Responder.{broadcast_address}
use esp_csi_rs.Initiator.{
  Initiator, knows, insert_peer, downlink_target, is_reply, handle_responder_packet,
}

-- The senders in the order they were first heard.
unfoldable pub distinct : List Mac → List Mac → List Mac
distinct seen [] = seen
distinct seen (m ∷ ms) = distinct (if knows m seen then seen else seen ++ (m ∷ [])) ms

abbrev note : Mac → List Mac → List Mac
note m ks = if knows m ks then ks else insert_peer m ks

abbrev note_all : List Mac → List Mac → List Mac
note_all [] ks = ks
note_all (m ∷ ms) ks = note_all ms (note m ks)

distinct-longer : (ms seen : List Mac) → length seen ≤ length (distinct seen ms)
unfolding distinct
distinct-longer [] seen = omega arith
distinct-longer (m ∷ ms) seen = elim (Bool-cases (knows m seen)) [
  | inl e ↦ rw e (distinct-longer ms seen)
  | inr e ↦ rw e (omega (arith, distinct-longer ms (seen ++ (m ∷ [])), length-append seen (m ∷ [])))
]

note-room :
    (m : Mac) (ks : List Mac)
    → length (if knows m ks then ks else ks ++ (m ∷ [])) ≤ 16
    → note m ks ≡ (if knows m ks then ks else ks ++ (m ∷ []))
unfolding insert_peer
note-room m ks few = elim (Bool-cases (knows m ks)) [
  | inl e ↦ rw e refl
  | inr e ↦
      let few' : length (ks ++ (m ∷ [])) ≤ 16 =
        subst (λ (l : List Mac). length l ≤ 16) (if-false ks (ks ++ (m ∷ [])) e) few in
      let fits : ltb (length ks) 16 ≡ true = ground (arith, length-append ks (m ∷ [])) in
      rw (e, fits) refl
]

-- A table that has room for all senders holds each once.
note_all-distinct :
    (ms ks : List Mac) → length (distinct ks ms) ≤ 16 → note_all ms ks ≡ distinct ks ms
unfolding distinct
note_all-distinct [] ks few = refl
note_all-distinct (m ∷ ms) ks few =
    let next : List Mac = if knows m ks then ks else ks ++ (m ∷ []) in
    ap (note_all ms) (note-room m ks (omega (arith, distinct-longer ms next)))
    ∙ note_all-distinct ms next few

-- Where replies come from one node alone, and what follows for the target.
abbrev pub all_from : Mac → List Mac → Bool
all_from m [] = true
all_from m (k ∷ ks) = mac_eq m k && all_from m ks

abbrev pub target_of : List Mac → Mac
target_of [] = broadcast_address
target_of (m ∷ ms) = if all_from m ms then m else broadcast_address

distinct-one : (m : Mac) (ms : List Mac) → all_from m ms ≡ true → distinct (m ∷ []) ms ≡ m ∷ []
unfolding distinct knows
distinct-one m [] h = refl
distinct-one m (k ∷ ms) h = elim (Bool-cases (mac_eq m k)) [
  | inl e ↦ rw e (distinct-one m ms (subst (λ b. (b && all_from m ms) ≡ true) e h))
  | inr e ↦ let clash : false ≡ true = subst (λ b. (b && all_from m ms) ≡ true) e h in absurd cc
]

distinct-several :
    (m : Mac) (ms : List Mac) → all_from m ms ≡ false → 2 ≤ length (distinct (m ∷ []) ms)
unfolding distinct knows
distinct-several m [] h = absurd cc
distinct-several m (k ∷ ms) h = elim (Bool-cases (mac_eq m k)) [
  | inl e ↦ rw e (distinct-several m ms (subst (λ b. (b && all_from m ms) ≡ false) e h))
  | inr e ↦ rw e (distinct-longer ms (m ∷ k ∷ []))
]

several : (ks : List Mac) → 2 ≤ length ks → downlink_target none ks ≡ broadcast_address
unfolding downlink_target
several [] h = absurd (omega arith)
several (k ∷ []) h = absurd (omega arith)
several (k ∷ k' ∷ ks) h = refl

downlink_target-distinct : (ms : List Mac) → downlink_target none (distinct [] ms) ≡ target_of ms
unfolding downlink_target distinct knows
downlink_target-distinct [] = refl
downlink_target-distinct (m ∷ ms) = elim (Bool-cases (all_from m ms)) [
  | inl e ↦ rw (e, distinct-one m ms e) refl
  | inr e ↦ rw e (several (distinct (m ∷ []) ms) (distinct-several m ms e))
]

if-not {ℓ} : {A : Type ℓ} (b : Bool) (x y : A) → (if not b then x else y) ≡ (if b then y else x)
if-not true x y = refl
if-not false x y = refl

noted :
    (b : Bool) (m : Mac) (ms ks : List Mac)
    → note_all ms (if b && not (knows m ks) then insert_peer m ks else ks)
      ≡ note_all (if b then m ∷ ms else ms) ks
noted true m ms ks = ap (note_all ms) (if-not (knows m ks) (insert_peer m ks) ks)
noted false m ms ks = refl

module _ {D : Type 0} (api : EspNowDriver D) (c5 has_ax : Bool) (config : EspNowConfig)
    (take_from_bytes : List ℕ → Option (Unit {0} × List ℕ))
    (to_slice : ControlPacket → ℕ → Option (List ℕ)) (reports : Bool) where
  unfoldable pub handle_all : List PoolFrame → Initiator D → Initiator D
  unfolding handle_responder_packet
  handle_all [] s = s
  handle_all (f ∷ fs) s =
      handle_all fs
        (handle_responder_packet api c5 has_ax config take_from_bytes to_slice reports f s)

  -- The senders of the frames that are replies.
  unfoldable pub repliers : List PoolFrame → List Mac
  repliers [] = []
  repliers (f ∷ fs) =
      let rest = repliers fs in
      if is_reply api c5 has_ax config take_from_bytes to_slice reports f
      then f.info.src_address ∷ rest
      else rest

  handle_all-known :
      (fs : List PoolFrame) (s : Initiator D)
      → (handle_all fs s).known_peers ≡ note_all (repliers fs) s.known_peers
  unfolding handle_all handle_responder_packet repliers
  handle_all-known [] s = refl
  handle_all-known (f ∷ fs) s =
      handle_all-known fs _
      ∙ noted (is_reply api c5 has_ax config take_from_bytes to_slice reports f) f.info.src_address
          (repliers fs) s.known_peers

  -- In auto pairing from an empty table, as long as at most 16 different nodes have replied: the
  -- target is the only node that has replied, and the broadcast address if none or several have.
  pub downlink_target-heard :
      (fs : List PoolFrame) (s : Initiator D)
      → s.known_peers ≡ []
      → length (distinct [] (repliers fs)) ≤ 16
      → downlink_target none (handle_all fs s).known_peers ≡ target_of (repliers fs)
  downlink_target-heard fs s empty few =
      ap (downlink_target none) (
        handle_all-known fs s
        ∙ (ap (note_all (repliers fs)) empty ∙ note_all-distinct (repliers fs) [] few))
      ∙ downlink_target-distinct (repliers fs)

  -- In auto pairing with 16 known responders, the reply of one that is not known makes it the
  -- target, by unicast.
  pub downlink_target-full :
      (f : PoolFrame) (s : Initiator D)
      → is_reply api c5 has_ax config take_from_bytes to_slice reports f ≡ true
      → knows f.info.src_address s.known_peers ≡ false
      → length s.known_peers ≡ 16
      → let s' : Initiator D =
          handle_responder_packet api c5 has_ax config take_from_bytes to_slice reports f s in
        downlink_target none s'.known_peers ≡ f.info.src_address
  unfolding handle_responder_packet insert_peer downlink_target
  downlink_target-full f s reply new full =
      let no_room : ltb (length s.known_peers) 16 ≡ false = ground (arith, full) in
      rw (reply, new, no_room) refl
