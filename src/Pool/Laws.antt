-- ===== src/Pool/Laws.antt =====
-- The pool as a bounded queue of received frames.
use esp_csi_rs.Base.{
  ℕ, zero, suc, min, ◌≤◌, ◌<◌, ◌≡◌, refl, sym, ap, ap₂, subst, ◌∙◌, ◌⊎◌, inl, inr, Bool, true,
  snoc-append, take_full, take_short, length-take, false, Option, none, some, List, [], ◌∷◌, ◌++◌,
  ltb, length, get_or, set, take, drop, replicate, length-append, arith,
}
use esp_csi_rs.Base.Int.{pos}
use esp_csi_rs.Mac.{Mac}
use esp_csi_rs.Pool.{
  Pool, PoolFrame, Arrival, arrive, data_of, copy_bytes, pool_frame, pool_enqueue, pool_rcv_cb,
  receive,
}

-- The senders and payloads of queued frames.
abbrev pub contents : List PoolFrame → List Arrival
contents [] = []
contents (f ∷ q) = (f.info.src_address, data_of f) ∷ contents q

-- The senders and payloads that `receive` gives in turn, at most `n` of them.
unfoldable pub receive_all : ℕ → Pool → List Arrival
receive_all zero p = []
receive_all (suc n) p =
    let (p', f) = receive p in
    let rest = receive_all n p' in
    elim f [ none ↦ [] | some g ↦ (g.info.src_address, data_of g) ∷ rest ]

-- What a frame with a payload leaves, at most 250 bytes of it; one without a payload leaves nothing.
abbrev pub heard : List Arrival → List Arrival
heard [] = []
heard ((src, []) ∷ as') = heard as'
heard ((src, b ∷ bytes) ∷ as') = (src, take 250 (b ∷ bytes)) ∷ heard as'

get_or-prefix : (pre rest : List ℕ) (x : ℕ) → get_or (pre ++ (x ∷ rest)) (length pre) 0 ≡ x
get_or-prefix [] rest x = refl
get_or-prefix (p ∷ pre) rest x = get_or-prefix pre rest x

set-prefix :
    (pre post : List ℕ) (x y : ℕ) → set (pre ++ (y ∷ post)) (length pre) x ≡ pre ++ (x ∷ post)
set-prefix [] post x y = refl
set-prefix (p ∷ pre) post x y = ap (λ l. p ∷ l) (set-prefix pre post x y)

-- The loop overwrites the buffer behind the bytes it has copied.
copy_bytes-prefix :
    (n : ℕ) (pre rest post : List ℕ)
    → n ≤ length rest
    → n ≤ length post
    → copy_bytes n (length pre) (pre ++ rest) (pre ++ post) ≡ pre ++ (take n rest ++ drop n post)
unfolding copy_bytes
copy_bytes-prefix zero pre rest post h k = refl
copy_bytes-prefix (suc n) pre [] post h k = absurd (omega arith)
copy_bytes-prefix (suc n) pre (x ∷ rest) [] h k = absurd (omega arith)
copy_bytes-prefix (suc n) pre (x ∷ rest) (y ∷ post) h k =
    let longer : length (pre ++ (x ∷ [])) ≡ suc (length pre) =
      omega (arith, length-append pre (x ∷ [])) in
    let step : copy_bytes n (length (pre ++ (x ∷ []))) ((pre ++ (x ∷ [])) ++ rest)
          ((pre ++ (x ∷ [])) ++ post)
        ≡ (pre ++ (x ∷ [])) ++ (take n rest ++ drop n post) =
      copy_bytes-prefix n (pre ++ (x ∷ [])) rest post (omega arith) (omega arith) in
    rw
      (
        get_or-prefix pre rest x,
        set-prefix pre post x y,
        ← snoc-append pre rest x,
        ← snoc-append pre post x,
        ← snoc-append pre (take n rest ++ drop n post) x,
        ← longer,
      )
      step

take-take_append : (n : ℕ) (xs ys : List ℕ) → n ≤ length xs → take n (take n xs ++ ys) ≡ take n xs
take-take_append zero xs ys h = refl
take-take_append (suc n) [] ys h = absurd (omega arith)
take-take_append (suc n) (x ∷ xs) ys h = ap (λ l. x ∷ l) (take-take_append n xs ys (omega arith))

take-min : (k : ℕ) (xs : List ℕ) → take (min (length xs) k) xs ≡ take k xs
take-min zero xs = let e : min (length xs) 0 ≡ 0 = omega arith in rw e refl
take-min (suc k) [] = let e : min 0 (suc k) ≡ 0 = omega arith in rw e refl
take-min (suc k) (x ∷ xs) =
    let e : min (suc (length xs)) (suc k) ≡ suc (min (length xs) k) = omega arith in
    rw e (ap (λ l. x ∷ l) (take-min k xs))

-- The frame that the callback fills reads back as the start of the payload.
pub data_of-pool_frame :
    (src : Option Mac) (bytes : List ℕ)
    → data_of (pool_frame src bytes (min (length bytes) 250)) ≡ take 250 bytes
unfolding pool_frame
data_of-pool_frame src bytes =
    let n : ℕ = min (length bytes) 250 in
    let zeros : List ℕ = replicate 250 0 in
    let copied : copy_bytes n 0 bytes zeros ≡ take n bytes ++ drop n zeros =
      copy_bytes-prefix n [] bytes zeros (omega arith) (omega arith) in
    rw copied (take-take_append n bytes (drop n zeros) (omega arith) ∙ take-min 250 bytes)

length-contents : (q : List PoolFrame) → length (contents q) ≡ length q
length-contents [] = refl
length-contents (f ∷ q) = ap suc (length-contents q)

contents-snoc :
    (q : List PoolFrame) (f : PoolFrame)
    → contents (q ++ (f ∷ [])) ≡ contents q ++ ((f.info.src_address, data_of f) ∷ [])
contents-snoc [] f = refl
contents-snoc (g ∷ q) f = ap (λ l. (g.info.src_address, data_of g) ∷ l) (contents-snoc q f)

receive_all_frames :
    (n : ℕ) (q : List PoolFrame) (r c : Bool)
    → length q ≤ n
    → receive_all n (record { frames = q; raw_drop = r; raw_recv_callback = c }) ≡ contents q
unfolding receive_all receive
receive_all_frames zero [] r c h = refl
receive_all_frames zero (f ∷ q) r c h = absurd (omega arith)
receive_all_frames (suc n) [] r c h = refl
receive_all_frames (suc n) (f ∷ q) r c h =
    ap (λ l. (f.info.src_address, data_of f) ∷ l) (receive_all_frames n q r c (omega arith))

-- Enough rounds of `receive` empty the pool in order.
receive_all_lem : (n : ℕ) (p : Pool) → length p.frames ≤ n → receive_all n p ≡ contents p.frames
receive_all_lem n p h = receive_all_frames n p.frames p.raw_drop p.raw_recv_callback h

-- A pool that takes frames in, and what it holds.
pub record Holds (q : List Arrival) (p : Pool) : Type 0 where
  pub listens : p.raw_drop ≡ false
  pub held : contents p.frames ≡ q

Holds-length : (q : List Arrival) (p : Pool) → Holds q p → length p.frames ≡ length q
Holds-length q p h = sym (length-contents p.frames) ∙ ap length h.held

-- One call of the callback with a payload.
Holds-room :
    (src : Mac) (b : ℕ) (bytes : List ℕ) (q : List Arrival) (p : Pool)
    → Holds q p
    → length q < 16
    → Holds
        (q ++ ((src, take 250 (b ∷ bytes)) ∷ []))
        (pool_rcv_cb (some (some src)) (some (b ∷ bytes)) (pos (length (b ∷ bytes))) p).0
unfolding pool_rcv_cb pool_enqueue
Holds-room src b bytes q p h room =
    let fits : ltb (length p.frames) 16 ≡ true = ground (arith, Holds-length q p h) in
    rw (h.listens, fits)
      (record {
        listens = refl;
        held =
            contents-snoc p.frames _
            ∙ ap₂ (λ u v. u ++ ((src, v) ∷ [])) h.held (data_of-pool_frame (some src) (b ∷ bytes));
      })

Holds-full :
    (src : Mac) (b : ℕ) (bytes : List ℕ) (q : List Arrival) (p : Pool)
    → Holds q p
    → length q ≡ 16
    → Holds q (pool_rcv_cb (some (some src)) (some (b ∷ bytes)) (pos (length (b ∷ bytes))) p).0
unfolding pool_rcv_cb pool_enqueue
Holds-full src b bytes q p h full =
    let no_room : ltb (length p.frames) 16 ≡ false = ground (arith, Holds-length q p h) in
    rw (h.listens, no_room) (record { listens = refl; held = h.held })

Holds-empty :
    (src : Mac) (q : List Arrival) (p : Pool)
    → Holds q p
    → Holds q (pool_rcv_cb (some (some src)) (some []) (pos 0) p).0
unfolding pool_rcv_cb
Holds-empty src q p h = rw h.listens (record { listens = refl; held = h.held })

room_cases : (n : ℕ) → n ≤ 16 → (n < 16) ⊎ (n ≡ 16)
room_cases n h = ground arith

Holds-arrive :
    (as' q : List Arrival) (p : Pool)
    → Holds q p
    → length q ≤ 16
    → Holds (take 16 (q ++ heard as')) (arrive as' p)
unfolding arrive
Holds-arrive [] q p h small = rw (take_short 16 q small) h
Holds-arrive ((src, []) ∷ as') q p h small = Holds-arrive as' q _ (Holds-empty src q p h) small
Holds-arrive ((src, b ∷ bytes) ∷ as') q p h small = elim (room_cases (length q) small) [
  | inl room ↦
      let x : Arrival = (src, take 250 (b ∷ bytes)) in
      let rest : Holds (take 16 ((q ++ (x ∷ [])) ++ heard as')) _ =
        Holds-arrive as' (q ++ (x ∷ [])) _ (Holds-room src b bytes q p h room)
          (omega (arith, length-append q (x ∷ []))) in
      rw⁻¹ (snoc-append q (heard as') x) rest
  | inr full ↦
      let x : Arrival = (src, take 250 (b ∷ bytes)) in
      let rest : Holds (take 16 (q ++ heard as')) _ =
        Holds-arrive as' q _ (Holds-full src b bytes q p h full) small in
      subst (λ l. Holds l (arrive ((src, b ∷ bytes) ∷ as') p))
        (take_full 16 q (heard as') full ∙ sym (take_full 16 q (x ∷ heard as') full)) rest
]

-- A pool that is not in raw-drop mode and holds at most 16 frames, after any frames arrive: the
-- next 16 calls of `receive` give the first 16 of the held and the arrived frames in order, each
-- with its sender and the first 250 bytes of its payload, where a frame without a payload leaves
-- nothing.
pub receive_all-arrive :
    (as' : List Arrival) (p : Pool)
    → p.raw_drop ≡ false
    → length p.frames ≤ 16
    → receive_all 16 (arrive as' p) ≡ take 16 (receive_all 16 p ++ heard as')
receive_all-arrive as' p listens small =
    let q : List Arrival = contents p.frames in
    let h : Holds (take 16 (q ++ heard as')) (arrive as' p) =
      Holds-arrive as' q p (record { listens = listens; held = refl })
        (omega (arith, length-contents p.frames)) in
    let n : length (arrive as' p).frames ≡ length (take 16 (q ++ heard as')) = Holds-length _ _ h in
    rw (receive_all_lem 16 p small) (
      receive_all_lem 16 (arrive as' p) (omega (arith, n, length-take 16 (q ++ heard as')))
      ∙ h.held)
