-- ===== src/Ring.antt =====
-- ringbuffer/ringbuffer.go: a growing ring over a slice, with `head` on the empty slot before the
-- first item and `tail` on the last item. The mutex makes each method one step. A method that can
-- fault returns an `Option`: `none` is the division by zero of a ring made with size 0.
pub mod Index
pub mod Loops
pub mod Validity
pub mod Push
pub mod PushFront
pub mod Pop
pub mod PopN
pub mod Deque
pub mod Growth
pub mod Batches
mod Tests
use hollywood.Base.{
  ℕ, zero, suc, ◌+◌, ◌-◌, ◌%◌, ◌^◌, Bool, Option, none, some, List, [], ◌∷◌, leb, nat_beq,
  if◌then◌else◌, get_or, set, replicate,
}

-- `int64` arithmetic on bit patterns: a pattern below 2 ^ 63 is its own value.
abbrev pub add64 : ℕ → ℕ → ℕ
add64 a b = (a + b) % 2 ^ 64

abbrev pub sub64 : ℕ → ℕ → ℕ
sub64 a b = (a + 2 ^ 64 - b) % 2 ^ 64

-- `buffer[T]`; the field `mod` is spelled `modulus`.
pub record Buffer {ℓ} (T : Type ℓ) : Type ℓ where
  pub items : List T
  pub head : ℕ
  pub tail : ℕ
  pub modulus : ℕ

-- `RingBuffer[T]`, without its mutex.
pub record RingBuffer {ℓ} (T : Type ℓ) : Type ℓ where
  pub len : ℕ
  pub content : Buffer T

-- `z` is the zero value of the item type.
module _ {ℓ} {T : Type ℓ} (z : T) where
  unfoldable pub new : ℕ → RingBuffer T
  new size = record {
    len = 0;
    content = record { items = replicate size z; head = 0; tail = 0; modulus = size };
  }

  -- The copying loops of `Push` (from `tail`, to offset 0) and of `PushFront` (from `head + 1`, to
  -- offset 1), with `k` rounds left.
  unfoldable pub copy_loop : (k i start offset m : ℕ) → List T → List T → List T
  copy_loop zero i start offset m items buff = buff
  copy_loop (suc k) i start offset m items buff =
      copy_loop k (suc i) start offset m items
        (set buff (add64 i offset) (get_or items (add64 start i % m) z))

  unfoldable pub grow_back : Buffer T → ℕ → Buffer T
  grow_back b tail = record {
    items =
        copy_loop b.modulus 0 tail 0 b.modulus b.items (replicate (add64 b.modulus b.modulus) z);
    head = 0;
    tail = b.modulus;
    modulus = add64 b.modulus b.modulus;
  }

  -- The tail moved on, into a larger slice where it would meet the head.
  unfoldable pub advance : Buffer T → Buffer T
  advance b =
      let tail = add64 b.tail 1 % b.modulus in
      if nat_beq tail b.head then grow_back b tail else record b { tail = tail }

  unfoldable pub push : RingBuffer T → T → Option (RingBuffer T)
  push r item =
      let b = advance r.content in
      if nat_beq r.content.modulus 0
      then none
      else some
          (record { len = add64 r.len 1; content = record b { items = set b.items b.tail item } })

  -- The pair of an item and a flag is an option.
  unfoldable pub pop : RingBuffer T → Option (Option T × RingBuffer T)
  pop r =
      let b = r.content in
      let head = add64 b.head 1 % b.modulus in
      if nat_beq r.len 0
      then some (none, r)
      else if nat_beq b.modulus 0
      then none
      else some (
        some (get_or b.items head z),
        record {
          len = sub64 r.len 1;
          content = record b { head = head; items = set b.items head z };
        },
      )

  unfoldable pub grow_front : RingBuffer T → Buffer T
  grow_front r =
      let b = r.content in
      record {
        items =
            copy_loop r.len 0 (add64 b.head 1) 1 b.modulus b.items
              (replicate (add64 b.modulus b.modulus) z);
        head = 0;
        tail = r.len;
        modulus = add64 b.modulus b.modulus;
      }

  -- At size 0 the write of the item is out of range.
  unfoldable pub push_front : RingBuffer T → T → Option (RingBuffer T)
  push_front r item =
      let b = if leb (sub64 r.content.modulus 1) r.len then grow_front r else r.content in
      if nat_beq r.content.modulus 0
      then none
      else some (record {
        len = add64 r.len 1;
        content = record b {
          items = set b.items b.head item;
          head = add64 (sub64 b.head 1) b.modulus % b.modulus;
        };
      })

  -- The loop of `PopN`: the slice of the ring, emptied, and the items read.
  unfoldable pub pop_loop : (k i head m : ℕ) → List T → List T → List T × List T
  pop_loop zero i head m items out = (items, out)
  pop_loop (suc k) i head m items out =
      let pos = add64 (add64 head 1) i % m in
      pop_loop k (suc i) head m (set items pos z) (set out i (get_or items pos z))

  -- `n` is not negative: `make` would panic.
  unfoldable pub pop_n : RingBuffer T → ℕ → Option (Option (List T) × RingBuffer T)
  pop_n r n =
      let b = r.content in
      let count = if leb r.len n then r.len else n in
      let (items, out) = pop_loop count 0 b.head b.modulus b.items (replicate count z) in
      if nat_beq r.len 0
      then some (none, r)
      else if nat_beq b.modulus 0
      then none
      else some (
        some out,
        record {
          len = sub64 r.len count;
          content = record b { items = items; head = add64 b.head count % b.modulus };
        },
      )

-- `Clear` leaves the slice as it is.
unfoldable pub clear {ℓ} : {T : Type ℓ} → RingBuffer T → RingBuffer T
clear r = record { len = 0; content = record (r.content) { head = 0; tail = 0 } }
