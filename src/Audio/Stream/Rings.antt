-- ===== src/Audio/Stream/Rings.antt =====
-- The two rings of a stream: what makes a stream well formed, and the operations of
-- `rawr_AudioStream_Read` and `rawr_AudioStream_Write`, which take all of a packet or nothing.
use rawr.Common.{length, zero, suc, refl, ℕ, ◌*◌, ◌^◌, ◌≤◌, ◌≡◌, ap, ◌∙◌, arith, min}
use rawr.Common.{List, ◌++◌, some, take, drop, pos}
use rawr.Common.Memory.{splice}
use rawr.RingBuffer.{RingBuffer, read, write}
use rawr.RingBuffer.Invariant.{IsValid, used, room, contents}
use rawr.RingBuffer.Write.{Written}
use rawr.RingBuffer.Read.{Taken}
use rawr.Audio.Stream.{AudioStream, sample_bytes, silence}

-- Both rings are valid rings of 16-bit samples and can hold a packet.
pub record IsStream (order packet : ℕ) (stream : AudioStream) : Type 0 where
  pub to_device : IsValid order stream.rb_to_device
  pub from_device : IsValid order stream.rb_from_device
  pub to_samples : stream.rb_to_device.element_size_bytes ≡ sample_bytes
  pub from_samples : stream.rb_from_device.element_size_bytes ≡ sample_bytes
  pub packet_eq : stream.sample_count ≡ pos packet
  pub packet_le : packet ≤ 2 ^ order

-- A write of so many samples as there is room for.
pub write-all :
    {order : ℕ} {rbuf : RingBuffer} {bytes : List ℕ} {count : ℕ}
    (w : Written order rbuf bytes count)
    → count ≤ room rbuf
    → (write rbuf bytes count ≡ some (count, w.after))
      × (contents w.after ≡ contents rbuf ++ take (count * rbuf.element_size_bytes) bytes)
write-all {rbuf} {bytes} {count} w h =
    let all : min count (room rbuf) ≡ count = omega (arith, h) in
    (
      w.returns ∙ ap (λ n. some (n, w.after)) all,
      w.appended ∙ ap (λ n. contents rbuf ++ take (n * rbuf.element_size_bytes) bytes) all,
    )

-- A read of no more samples than there are.
pub read-all :
    {order : ℕ} {rbuf : RingBuffer} {bytes : List ℕ} {count : ℕ} (t : Taken order rbuf bytes count)
    → count ≤ used rbuf
    → (read rbuf bytes count
        ≡ some (
          count,
          splice bytes 0 (take (count * rbuf.element_size_bytes) (contents rbuf)),
          t.after,
        ))
      × (contents t.after ≡ drop (count * rbuf.element_size_bytes) (contents rbuf))
read-all {rbuf} {bytes} {count} t h =
    let all : min count (used rbuf) ≡ count = omega (arith, h) in
    (
      t.returns
          ∙ ap
              (λ n.
                some
                  (n, splice bytes 0 (take (n * rbuf.element_size_bytes) (contents rbuf)), t.after))
              all,
      t.remaining ∙ ap (λ n. drop (n * rbuf.element_size_bytes) (contents rbuf)) all,
    )

-- So many zero bytes.
pub length-silence : (n : ℕ) → length (silence n) ≡ n
length-silence zero = refl
length-silence (suc n) = ap suc (length-silence n)
