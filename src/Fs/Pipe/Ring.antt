-- ===== src/Fs/Pipe/Ring.antt =====
-- The ring buffer as a queue of at most 1024 bytes.
use oskernel2023_main_os.Common.{
  ap, get_or, get_or-set_ne, get_or-set_self, length, length-set, not, refl, set, suc, sym, zero,
  ◌%◌, ◌++◌, ◌+◌, ◌<◌, ◌==◌, ◌∙◌, ◌∷◌, ◌≡◌, ◌≢◌, ◌≤◌,
}
use oskernel2023_main_os.Common.{List, [], arith, ℕ}
use oskernel2023_main_os.Fs.Pipe.{
  PipeRingBuffer, RingBufferStatus, available_read, available_write, empty, full, is_empty, is_full,
  new, normal, r_ready, read_byte, w_ready, write_byte,
}

-- `n` bytes of the ring from the place `i` on.
unfoldable pub bytes : List ℕ → ℕ → ℕ → List ℕ
bytes arr i zero = []
bytes arr i (suc n) = get_or arr i 0 ∷ bytes arr ((i + 1) % 1024) n

abbrev Placed : RingBufferStatus → ℕ → ℕ → Type 0
Placed full h t = h ≡ t
Placed empty h t = h ≡ t
Placed normal h t = h ≢ t

-- The ring has its size, and its status says which of the two it is when the ends meet.
pub record Inv (r : PipeRingBuffer) : Type 0 where
  pub size : length r.arr ≡ 1024
  pub head_in : r.head < 1024
  pub tail_in : r.tail < 1024
  pub ends : Placed r.status r.head r.tail

-- The queue that the ring stands for, the oldest byte first.
unfoldable pub queue : PipeRingBuffer → List ℕ
queue r = bytes r.arr r.head (available_read r)

length-bytes : (arr : List ℕ) (i n : ℕ) → length (bytes arr i n) ≡ n
unfolding bytes
length-bytes arr i zero = refl
length-bytes arr i (suc n) = ap suc (length-bytes arr ((i + 1) % 1024) n)

bytes-snoc :
    (arr : List ℕ) (i n : ℕ)
    → i < 1024
    → bytes arr i (suc n) ≡ bytes arr i n ++ (get_or arr ((i + n) % 1024) 0 ∷ [])
unfolding bytes
bytes-snoc arr i zero h = let same : (i + 0) % 1024 ≡ i = omega arith in rw same refl
bytes-snoc arr i (suc n) h =
    let same : ((i + 1) % 1024 + n) % 1024 ≡ (i + suc n) % 1024 = omega arith in
    ap (◌∷◌ (get_or arr i 0)) (rw same at (bytes-snoc arr ((i + 1) % 1024) n (omega arith)))

-- A write outside the bytes.
bytes-set :
    (arr : List ℕ) (i n j v : ℕ)
    → i < 1024
    → (d : ℕ) → j ≡ (i + d) % 1024
    → n ≤ d
    → d < 1024
    → bytes (set arr j v) i n ≡ bytes arr i n
unfolding bytes
bytes-set arr i zero j v h d at k l = refl
bytes-set arr i (suc n) j v h zero at k l = absurd (omega arith)
bytes-set arr i (suc n) j v h (suc d) at k l =
    rw (get_or-set_ne arr {i = j} {j = i} v 0 (λ e. omega arith)) (
      ap (◌∷◌ (get_or arr i 0)) (
        bytes-set arr ((i + 1) % 1024) n j v (omega arith) d (omega arith) (omega arith)
          (omega arith)))

-- How many bytes are between the ends.
available_read_value :
    (arr : List ℕ) (h t : ℕ) (s : RingBufferStatus)
    → h < 1024
    → t < 1024
    → Placed s h t
    → let r : PipeRingBuffer = record { arr = arr; head = h; tail = t; status = s } in
      ((h + available_read r) % 1024 ≡ t)
      × (available_read r ≤ 1024)
      × (available_write r + available_read r ≡ 1024)
      × (is_empty s ≡ (available_read r == 0))
      × (is_full s ≡ (available_read r == 1024))
unfolding available_write
available_read_value arr h t full a b e = ground arith
available_read_value arr h t empty a b e = ground arith
available_read_value arr h t normal a b e = ground arith

module _ (arr : List ℕ) (h t : ℕ) (s : RingBufferStatus) (a : h < 1024) (b : t < 1024)
    (e : Placed s h t) where
  abbrev here : PipeRingBuffer
  here = record { arr = arr; head = h; tail = t; status = s }

  written_count :
      (byte : ℕ)
      → available_read here < 1024
      → (available_read (write_byte here byte) ≡ suc (available_read here))
        × ((write_byte here byte).tail ≡ (t + 1) % 1024)
        × Placed (write_byte here byte).status h (write_byte here byte).tail
  unfolding write_byte available_read
  written_count byte few =
      let (_, _, _, z, f) = available_read_value arr h t s a b e in ground arith

  read_count :
      available_read here ≢ 0
      → (suc (available_read (read_byte here).1) ≡ available_read here)
        × ((read_byte here).1.head ≡ (h + 1) % 1024)
        × Placed (read_byte here).1.status (read_byte here).1.head t
  unfolding read_byte available_read
  read_count some_there = let (_, _, _, z, f) = available_read_value arr h t s a b e in ground arith

module _ (r : PipeRingBuffer) (v : Inv r) where
  pub length-queue : length (queue r) ≡ available_read r
  unfolding queue
  length-queue = length-bytes r.arr r.head (available_read r)

  -- The bytes to read and the room to write make up the ring, and the ring is ready to be read, or
  -- written, exactly if there is a byte to read, or room.
  pub available_lem :
      (length (queue r) ≡ available_read r)
      × (available_write r + length (queue r) ≡ 1024)
      × (r_ready r ≡ not (length (queue r) == 0))
      × (w_ready r ≡ not (length (queue r) == 1024))
  unfolding r_ready w_ready
  available_lem =
      let (_, _, c, z, f) =
        available_read_value r.arr r.head r.tail r.status v.head_in v.tail_in v.ends in
      rw length-queue (refl, c, ap not z, ap not f)

  written_arr : (byte : ℕ) → length (write_byte r byte).arr ≡ length (set r.arr r.tail byte)
  unfolding write_byte
  written_arr byte = refl

  -- With room in the ring, `write_byte` puts the byte behind all others, and keeps the invariant.
  pub write_byte_lem :
      (byte : ℕ)
      → available_write r ≢ 0
      → Inv (write_byte r byte) × (queue (write_byte r byte) ≡ queue r ++ (byte ∷ []))
  unfolding queue write_byte
  write_byte_lem byte room =
      let (at, _, c, _, _) =
        available_read_value r.arr r.head r.tail r.status v.head_in v.tail_in v.ends in
      let few : available_read r < 1024 = omega arith in
      let (n, t, p) =
        written_count r.arr r.head r.tail r.status v.head_in v.tail_in v.ends byte few in
      (
        record {
          size = written_arr byte ∙ length-set r.arr r.tail byte ∙ v.size;
          head_in = v.head_in;
          tail_in = rw t (omega arith);
          ends = p;
        },
        (rw n)
            ∙ bytes-snoc (set r.arr r.tail byte) r.head (available_read r) v.head_in
            ∙ rw at (
                rw
                  (
                    bytes-set r.arr r.head (available_read r) r.tail byte v.head_in
                        (available_read r) (sym at) (omega arith) few,
                    get_or-set_self r.arr r.tail byte 0 (omega (arith, v.size, v.tail_in)),
                  )
                  refl),
      )

  -- With a byte in the ring, `read_byte` takes the oldest one, and keeps the invariant.
  pub read_byte_lem :
      available_read r ≢ 0
      → (c : ℕ) × (r' : PipeRingBuffer) × (read_byte r ≡ (c, r'))
        × Inv r'
        × (queue r ≡ c ∷ queue r')
  unfolding queue bytes read_byte
  read_byte_lem some_there =
      let (n, h, p) =
        read_count r.arr r.head r.tail r.status v.head_in v.tail_in v.ends some_there in
      (
        get_or r.arr r.head 0,
        (read_byte r).1,
        refl,
        record { size = v.size; head_in = rw h (omega arith); tail_in = v.tail_in; ends = p },
        ap (bytes r.arr r.head) (sym n)
            ∙ ap (λ (i : ℕ). get_or r.arr r.head 0 ∷ bytes r.arr i (available_read (read_byte r).1))
                (sym h),
      )

pub new-Inv : Inv new × (queue new ≡ [])
unfolding new queue available_read bytes
new-Inv = (record { size = refl; head_in = omega arith; tail_in = omega arith; ends = refl }, refl)
