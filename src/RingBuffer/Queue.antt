-- ===== src/RingBuffer/Queue.antt =====
-- What a ring buffer promises: a first-in first-out queue of bytes with room for a fixed number of
-- elements, which takes what fits and gives the oldest. The functions of src/RingBuffer.c keep that
-- promise over every sequence of calls.
use rawr.Common.{ℕ, ◌+◌, ◌-◌, ◌*◌, ◌≤◌, ◌≡◌, refl, sym, ap, ◌∙◌, arith, min}
use rawr.Common.{List, [], ◌∷◌, ◌++◌, Option, none, some, length, take, drop}
use rawr.Common.Memory.{splice}
use rawr.RingBuffer.{RingBuffer, write, read, flush}
use rawr.RingBuffer.Invariant.{IsValid, used, room, contents, size_bytes}
use rawr.RingBuffer.Window.{window}
use rawr.RingBuffer.Write.{Written, write-Written}
use rawr.RingBuffer.Read.{Taken, read-Taken}

-- `stored` counts elements; `bytes` are theirs, oldest first.
pub record Queue : Type 0 where
  pub capacity : ℕ
  pub element_size : ℕ
  pub stored : ℕ
  pub bytes : List ℕ

unfoldable pub put : Queue → List ℕ → ℕ → ℕ × Queue
put q bytes count =
    let n = min count (q.capacity - q.stored) in
    (n, record q { stored = q.stored + n; bytes = q.bytes ++ take (n * q.element_size) bytes })

unfoldable pub get : Queue → List ℕ → ℕ → ℕ × List ℕ × Queue
get q out count =
    let n = min count q.stored in
    (
      n,
      splice out 0 (take (n * q.element_size) q.bytes),
      record q { stored = q.stored - n; bytes = drop (n * q.element_size) q.bytes },
    )

-- A client's call: a write of an array, a read into one, or a flush.
pub data Call : Type 0 where
  writes : List ℕ → ℕ → Call
  reads : List ℕ → ℕ → Call
  flushes : Call

-- What the client sees: the count returned, and the array read into.
pub data Reply : Type 0 where
  wrote : ℕ → Reply
  got : ℕ → List ℕ → Reply
  flushed : Reply

pub run_queue : Queue → List Call → List Reply
unfolding put get
run_queue q [] = []
run_queue q (writes bytes count ∷ calls) =
    let (n, q') = put q bytes count in wrote n ∷ run_queue q' calls
run_queue q (reads out count ∷ calls) =
    let (n, out', q') = get q out count in got n out' ∷ run_queue q' calls
run_queue q (flushes ∷ calls) = flushed ∷ run_queue (record q { stored = 0; bytes = [] }) calls

cons? : Reply → Option (List Reply) → Option (List Reply)
cons? reply none = none
cons? reply (some replies) = some (reply ∷ replies)

-- The same calls of the code; `none` is an access outside an array.
pub run : RingBuffer → List Call → Option (List Reply)
unfolding cons?
run rbuf [] = some []
run rbuf (writes bytes count ∷ calls) = elim (write rbuf bytes count) [
  | none ↦ none
  | some (n, rbuf') ↦ cons? (wrote n) (run rbuf' calls)
]
run rbuf (reads out count ∷ calls) = elim (read rbuf out count) [
  | none ↦ none
  | some (n, out', rbuf') ↦ cons? (got n out') (run rbuf' calls)
]
run rbuf (flushes ∷ calls) = cons? flushed (run (flush rbuf) calls)

-- Every array is as large as its count says.
abbrev pub IsGiven : ℕ → List Call → Type 0
IsGiven size [] = Unit
IsGiven size (writes bytes count ∷ calls) = (count * size ≤ length bytes) × IsGiven size calls
IsGiven size (reads out count ∷ calls) = (count * size ≤ length out) × IsGiven size calls
IsGiven size (flushes ∷ calls) = IsGiven size calls

-- The queue that a buffer stands for.
abbrev pub queue_of : RingBuffer → Queue
queue_of rbuf = record {
  capacity = rbuf.buffer_size;
  element_size = rbuf.element_size_bytes;
  stored = used rbuf;
  bytes = contents rbuf;
}

pub put-queue_of :
    {order : ℕ} {rbuf : RingBuffer} {bytes : List ℕ} {count : ℕ}
    (w : Written order rbuf bytes count)
    → put (queue_of rbuf) bytes count ≡ (min count (room rbuf), queue_of w.after)
unfolding put
put-queue_of {rbuf} {bytes} {count} w = λ i. (
  min count (room rbuf),
  record {
    capacity = sym w.same_size.0 i;
    element_size = sym w.same_size.1 i;
    stored = sym w.used_after i;
    bytes = sym w.appended i;
  },
)

pub get-queue_of :
    {order : ℕ} {rbuf : RingBuffer} {out : List ℕ} {count : ℕ} (t : Taken order rbuf out count)
    → get (queue_of rbuf) out count ≡ (
      min count (used rbuf),
      splice out 0 (take (min count (used rbuf) * rbuf.element_size_bytes) (contents rbuf)),
      queue_of t.after,
    )
unfolding get
get-queue_of {rbuf} {out} {count} t =
    let left : used rbuf - min count (used rbuf) ≡ used t.after = omega (arith, t.used_after) in
    λ i. (
      min count (used rbuf),
      splice out 0 (take (min count (used rbuf) * rbuf.element_size_bytes) (contents rbuf)),
      record {
        capacity = sym t.same_size.0 i;
        element_size = sym t.same_size.1 i;
        stored = left i;
        bytes = sym t.remaining i;
      },
    )

flush-IsValid : {order : ℕ} {rbuf : RingBuffer} → IsValid order rbuf → IsValid order (flush rbuf)
unfolding flush
flush-IsValid {order} v = record {
  order_le = v.order_le;
  element_pos = v.element_pos;
  size_eq = v.size_eq;
  big_mask_eq = v.big_mask_eq;
  small_mask_eq = v.small_mask_eq;
  write_lt = omega (arith, v.write_lt);
  read_lt = omega (arith, v.read_lt);
  used_le = omega arith;
  storage = v.storage;
  fits = v.fits;
}

-- A flushed buffer stands for the empty queue.
queue_of-flush :
    (rbuf : RingBuffer) → queue_of (flush rbuf) ≡ record (queue_of rbuf) { stored = 0; bytes = [] }
unfolding flush
queue_of-flush rbuf = λ i. record {
  capacity = rbuf.buffer_size;
  element_size = rbuf.element_size_bytes;
  stored = 0;
  bytes = no_bytes i;
}
  where
    no_bytes : contents (flush rbuf) ≡ []
    no_bytes =
        ap (window rbuf.buffer (size_bytes rbuf) (0 * rbuf.element_size_bytes)) {y = 0}
          (omega arith)

-- One call of the code, in terms of the next state.
run-writes :
    (rbuf : RingBuffer) (bytes : List ℕ) (count : ℕ) (calls : List Call) {n : ℕ}
    {after : RingBuffer}
    → write rbuf bytes count ≡ some (n, after)
    → run rbuf (writes bytes count ∷ calls) ≡ cons? (wrote n) (run after calls)
unfolding run
run-writes rbuf bytes count calls e = rw (e, run)

run-reads :
    (rbuf : RingBuffer) (out : List ℕ) (count : ℕ) (calls : List Call) {n : ℕ} {out' : List ℕ}
    {after : RingBuffer}
    → read rbuf out count ≡ some (n, out', after)
    → run rbuf (reads out count ∷ calls) ≡ cons? (got n out') (run after calls)
unfolding run
run-reads rbuf out count calls e = rw (e, run)

run-flushes :
    (rbuf : RingBuffer) (calls : List Call)
    → run rbuf (flushes ∷ calls) ≡ cons? flushed (run (flush rbuf) calls)
unfolding run
run-flushes rbuf calls = refl

-- The same of the queue.
run_queue-writes :
    (q : Queue) (bytes : List ℕ) (count : ℕ) (calls : List Call) {n : ℕ} {after : Queue}
    → put q bytes count ≡ (n, after)
    → run_queue q (writes bytes count ∷ calls) ≡ wrote n ∷ run_queue after calls
unfolding run_queue
run_queue-writes q bytes count calls e = ap (λ (r : ℕ × Queue). wrote r.0 ∷ run_queue r.1 calls) e

run_queue-reads :
    (q : Queue) (out : List ℕ) (count : ℕ) (calls : List Call) {n : ℕ} {out' : List ℕ}
    {after : Queue}
    → get q out count ≡ (n, out', after)
    → run_queue q (reads out count ∷ calls) ≡ got n out' ∷ run_queue after calls
unfolding run_queue
run_queue-reads q out count calls e =
    ap (λ (r : ℕ × List ℕ × Queue). got r.0 r.1 ∷ run_queue r.2 calls) e

run_queue-flushes :
    (q : Queue) (calls : List Call)
    → run_queue q (flushes ∷ calls)
      ≡ flushed ∷ run_queue (record q { stored = 0; bytes = [] }) calls
unfolding run_queue
run_queue-flushes q calls = refl

-- No sequence of calls, each with an array as large as its count says, tells a valid ring buffer
-- from the queue that it stands for: every write takes what fits, every read gives the oldest
-- bytes, and no copy leaves an array.
pub run-eq-run_queue :
    (calls : List Call) {order : ℕ} {rbuf : RingBuffer}
    → IsValid order rbuf
    → IsGiven rbuf.element_size_bytes calls
    → run rbuf calls ≡ some (run_queue (queue_of rbuf) calls)
unfolding cons?
run-eq-run_queue [] v given = unfold run run_queue in refl
run-eq-run_queue (writes bytes count ∷ calls) {rbuf = rbuf} v given =
    let w = write-Written v bytes count given.0 in
    let rest = run-eq-run_queue calls w.valid (rw w.same_size.1 given.1) in
    run-writes rbuf bytes count calls w.returns
    ∙ ap (cons? (wrote (min count (room rbuf)))) rest
    ∙ ap some (sym (run_queue-writes (queue_of rbuf) bytes count calls (put-queue_of w)))
run-eq-run_queue (reads out count ∷ calls) {rbuf = rbuf} v given =
    let t = read-Taken v out count given.0 in
    let rest = run-eq-run_queue calls t.valid (rw t.same_size.1 given.1) in
    run-reads rbuf out count calls t.returns
    ∙ ap (cons? (got (min count (used rbuf)) _)) rest
    ∙ ap some (sym (run_queue-reads (queue_of rbuf) out count calls (get-queue_of t)))
run-eq-run_queue (flushes ∷ calls) {rbuf = rbuf} v given =
    let rest = run-eq-run_queue calls (flush-IsValid v) (unfold flush in given) in
    run-flushes rbuf calls
    ∙ ap (cons? flushed) rest
    ∙ ap (λ q. some (flushed ∷ run_queue q calls)) (queue_of-flush rbuf)
    ∙ ap some (sym (run_queue-flushes (queue_of rbuf) calls))
