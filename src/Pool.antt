-- ===== src/Pool.antt =====
-- src/lib/esp_now_pool.rs: the 16-slot pool between the ESP-NOW receive callback and the tasks.
-- A pointer that may be null is an `Option`; the memory behind `data` is a list of bytes.
pub mod Laws
mod Tests
use esp_csi_rs.Base.{
  ℕ, zero, suc, min, Bool, true, false, not, ◌&&◌, ◌||◌, Option, none, some, List, [], ◌∷◌, ◌++◌,
  if◌then◌else◌, ltb, is_some, unwrap_or, length, get_or, set, take, replicate,
}
use esp_csi_rs.Base.Int.{ℤ, pos, negsuc}
use esp_csi_rs.Mac.{Mac, zero_mac}

abbrev pub pool_capacity : ℕ
pool_capacity = 16

abbrev pub esp_now_max_data_len : ℕ
esp_now_max_data_len = 250

pub record PoolInfo : Type 0 where
  pub src_address : Mac

pub record PoolFrame : Type 0 where
  pub info : PoolInfo
  pub data_buf : List ℕ
  pub data_len : ℕ

-- `PoolFrame::data`.
abbrev pub data_of : PoolFrame → List ℕ
data_of f = take f.data_len f.data_buf

-- `QUEUE`, `RAW_DROP`, and whether `RAW_RECV_CALLBACK` is set.
pub record Pool : Type 0 where
  pub frames : List PoolFrame
  pub raw_drop : Bool
  pub raw_recv_callback : Bool

abbrev pub new_pool : Pool
new_pool = record { frames = []; raw_drop = false; raw_recv_callback = false }

unfoldable pub set_raw_drop : Bool → Pool → Pool
set_raw_drop enabled p = record p { raw_drop = enabled }

unfoldable pub set_raw_recv_callback : Pool → Pool
set_raw_recv_callback p = record p { raw_recv_callback = true }

-- What the callback does outside the pool: the raw callback's call, and the wake of the consumer.
pub data PoolEffect : Type 0 where
  called : List ℕ → PoolEffect
  woken : PoolEffect

-- `data_len <= 0`, and `(data_len as usize).min(ESP_NOW_MAX_DATA_LEN)` where it is positive.
abbrev pub is_positive : ℤ → Bool
is_positive (pos zero) = false
is_positive (pos (suc n)) = true
is_positive (negsuc n) = false

abbrev pub clamped_len : ℤ → ℕ
clamped_len (pos n) = min n esp_now_max_data_len
clamped_len (negsuc n) = 0

-- `for i in 0..len { frame.data_buf[i] = *data.add(i) }`, on the rounds left and `i`.
unfoldable pub copy_bytes : ℕ → ℕ → List ℕ → List ℕ → List ℕ
copy_bytes zero i bytes buf = buf
copy_bytes (suc n) i bytes buf = copy_bytes n (suc i) bytes (set buf i (get_or bytes i 0))

-- The frame that the callback fills.
unfoldable pub pool_frame : Option Mac → List ℕ → ℕ → PoolFrame
unfolding copy_bytes
pool_frame src bytes len = record {
  info = record { src_address = unwrap_or src zero_mac };
  data_buf = copy_bytes len 0 bytes (replicate esp_now_max_data_len 0);
  data_len = len;
}

-- `QUEUE.enqueue`: a frame that finds the queue full is dropped.
unfoldable pub pool_enqueue : PoolFrame → List PoolFrame → List PoolFrame
pool_enqueue f q = if ltb (length q) pool_capacity then q ++ (f ∷ []) else q

-- `pool_rcv_cb`: `info` is null or holds `src_addr`, itself null or an address.
unfoldable pub pool_rcv_cb :
    Option (Option Mac) → Option (List ℕ) → ℤ → Pool → Pool × List PoolEffect
unfolding pool_frame pool_enqueue
pool_rcv_cb info bytes len p =
    if p.raw_drop
    then (
      p,
      if (p.raw_recv_callback && is_some bytes) && is_positive len
          then PoolEffect.called (take (clamped_len len) (unwrap_or bytes [])) ∷ []
          else [],
    )
    else if (not (is_some info) || not (is_some bytes)) || not (is_positive len)
    then (p, [])
    else (
      record p {
        frames =
            pool_enqueue (pool_frame (unwrap_or info none) (unwrap_or bytes []) (clamped_len len))
              p.frames;
      },
      PoolEffect.woken ∷ [],
    )

-- `receive`.
unfoldable pub receive : Pool → Pool × Option PoolFrame
receive p = elim p.frames [ [] ↦ (p, none) | f ∷ q ↦ (record p { frames = q }, some f) ]

-- One poll of `receive_async`: the frame, and whether the waker was registered.
unfoldable pub poll_receive : Pool → Pool × Option PoolFrame × Bool
unfolding receive
poll_receive p =
    let (p', f) = receive p in
    elim f [ some g ↦ (p', some g, false) | none ↦ (let (p'', f') = receive p' in (p'', f', true)) ]

-- A frame on the air: the sender and its payload, as the driver passes them.
abbrev pub Arrival : Type 0
Arrival = Mac × List ℕ

-- The driver calls the callback for each.
unfoldable pub arrive : List Arrival → Pool → Pool
unfolding pool_rcv_cb
arrive [] p = p
arrive (a ∷ as') p = arrive as' (pool_rcv_cb (some (some a.0)) (some a.1) (pos (length a.1)) p).0
