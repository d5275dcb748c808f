-- ===== src/Buffer.antt =====
-- internal/buffer/buffer.go: the byte buffer that keeps what the serial port received.
-- The mutex makes every method one step; `now` is what `time.Now()` returns inside the critical
-- section of `Append`. An observer's callback acts on what the subscriber owns, `W`.
pub mod Calls
pub mod Retention
pub mod Stream
pub mod Observers
use serial_hub.Prelude.{
  ℕ, ◌+◌, ◌-◌, ◌%◌, ◌^◌, List, [], ◌∷◌, ◌++◌, Option, none, some, Bytes, ℤ, pos, ltb, leb, ◌==◌,
  if◌then◌else◌, ◌||◌, length, take, drop, is_empty, is_positive, pos_part, not, ltb_ℤ,
}

pub record Observer (W : Type 0) : Type 0 where
  pub id : ℕ
  pub fn : Bytes → ℕ → W → W

pub record DataBuffer (W : Type 0) : Type 0 where
  pub buffer : Bytes
  pub max_size : ℕ
  pub observers : List (Observer W)
  pub next_obs_id : ℕ

abbrev pub default_max_size : ℕ
default_max_size = 65536

-- `NewDataBuffer(maxSize ...int)`.
unfoldable pub new_data_buffer : {W : Type 0} → List ℤ → DataBuffer W
new_data_buffer args = record {
  buffer = [];
  max_size = chosen args;
  observers = [];
  next_obs_id = 0;
}
  where
    chosen : List ℤ → ℕ
    chosen [] = default_max_size
    chosen (n ∷ rest) = if is_positive n then pos_part n else default_max_size

-- The overflow branches of `Append`.
unfoldable pub kept : ℕ → Bytes → Bytes → Bytes
kept max_size old new =
    let new_len = length old + length new in
    let discard = new_len - max_size in
    if ltb max_size new_len
    then if leb (length old) discard then new else drop discard old ++ new
    else old ++ new

-- How many bytes `Read` and `Peek` hand out.
unfoldable pub read_size : ℤ → ℕ → ℕ
read_size max_size len =
    if not (is_positive max_size) || ltb_ℤ (pos len) max_size then len else pos_part max_size

module _ {W : Type 0} where
  -- Every observer gets the chunk, in the order of subscription.
  unfoldable pub notify : List (Observer W) → Bytes → ℕ → W → W
  notify [] chunk now w = w
  notify (o ∷ os) chunk now w = notify os chunk now (o.fn chunk now w)

  unfoldable pub append : DataBuffer W → Bytes → ℕ → W → DataBuffer W × W
  append b new now w =
      if is_empty new
      then (b, w)
      else (record b { buffer = kept b.max_size b.buffer new }, notify b.observers new now w)

  -- The identifier is a `uint64`; the unsubscribing function is `unsubscribe` at that identifier.
  unfoldable pub subscribe : DataBuffer W → (Bytes → ℕ → W → W) → DataBuffer W × ℕ
  subscribe b fn =
      let id = (b.next_obs_id + 1) % 2 ^ 64 in
      (
        record b { observers = b.observers ++ record { id = id; fn = fn } ∷ []; next_obs_id = id },
        id,
      )

  unfoldable pub remove_observer : ℕ → List (Observer W) → List (Observer W)
  remove_observer id [] = []
  remove_observer id (o ∷ os) = if o.id == id then os else o ∷ remove_observer id os

  unfoldable pub unsubscribe : DataBuffer W → ℕ → DataBuffer W
  unsubscribe b id = record b { observers = remove_observer id b.observers }

  -- `none` is the nil slice.
  unfoldable pub peek : DataBuffer W → ℤ → Option Bytes
  peek b max_size =
      if is_empty b.buffer
      then none
      else some (take (read_size max_size (length b.buffer)) b.buffer)

  unfoldable pub read : DataBuffer W → ℤ → DataBuffer W × Option Bytes
  read b max_size =
      let n = read_size max_size (length b.buffer) in
      if is_empty b.buffer
      then (b, none)
      else (record b { buffer = drop n b.buffer }, some (take n b.buffer))

  unfoldable pub clear : DataBuffer W → DataBuffer W
  clear b = record b { buffer = [] }

  unfoldable pub buffered : DataBuffer W → ℕ
  buffered b = length b.buffer
