-- ===== src/Audio/Ps5/Loop/Whole.antt =====
-- One grain of output: it does not depend on what `outputSamples` held before.
use rawr.Common.{ℕ, ◌*◌, ◌^◌, ◌<◌, ◌≡◌, refl, sym, ap, ap₂, ◌∙◌, arith}
use rawr.Common.{List, length, take, length-take, min}
use native.Mathlib.Decide.{dec_lt}
use rawr.Common.Memory.{splice, splice-whole}
use rawr.RingBuffer.{RingBuffer}
use rawr.RingBuffer.Invariant.{used, contents, length-contents}
use rawr.RingBuffer.Queue.{Queue, get, queue_of}
use rawr.Audio.Stream.{sample_bytes}
use rawr.Audio.Stream.Rings.{length-silence}
use rawr.Audio.Stream.Duplex.{play_samples, muted}
use rawr.Audio.Ps5.Loop.{blank}
use rawr.Audio.Ps5.{grain}

-- What a grain's output holds does not depend on what the array held before.
pub play_samples-whole :
    (rbuf : RingBuffer) (outputs : List ℕ)
    → rbuf.element_size_bytes ≡ sample_bytes
    → length outputs ≡ grain * sample_bytes
    → (play_samples (queue_of rbuf) outputs grain ≡ play_samples (queue_of rbuf) blank grain)
      × (length (play_samples (queue_of rbuf) outputs grain).0 ≡ grain * sample_bytes)
unfolding play_samples get
play_samples-whole rbuf outputs e len = elim (dec_lt (used rbuf) grain) [
  | yes few ↦
      let quiet = length-silence (grain * sample_bytes) in
      let same : muted outputs grain ≡ muted blank grain =
        splice-whole outputs blank (quiet ∙ sym len) ∙ sym (splice-whole blank blank refl) in
      let out : play_samples (queue_of rbuf) outputs grain ≡ (muted outputs grain, queue_of rbuf) =
        ground (arith, few) in
      let out_blank : play_samples (queue_of rbuf) blank grain
          ≡ (muted blank grain, queue_of rbuf) =
        ground (arith, few) in
      (
        out ∙ ap (λ (o : List ℕ). (o, queue_of rbuf)) same ∙ sym out_blank,
        ap (λ (r : List ℕ × Queue). length r.0) out
            ∙ ap length (splice-whole outputs blank (quiet ∙ sym len))
            ∙ quiet,
      )
  | no enough ↦
      let k = min grain (used rbuf) * rbuf.element_size_bytes in
      let bytes = take k (contents rbuf) in
      let rest = (get (queue_of rbuf) blank grain).2 in
      let all : min grain (used rbuf) ≡ grain = omega (arith, enough) in
      let len_k : k ≡ grain * sample_bytes = ap₂ ◌*◌ all e in
      let held : length (contents rbuf) ≡ used rbuf * sample_bytes =
        length-contents rbuf ∙ ap (λ n. used rbuf * n) e in
      let len_bytes : length bytes ≡ grain * sample_bytes =
        omega (arith, length-take k (contents rbuf), len_k, held, enough) in
      let quiet = length-silence (grain * sample_bytes) in
      let out : play_samples (queue_of rbuf) outputs grain ≡ (splice outputs 0 bytes, rest) =
        ground (arith, enough) in
      let out_blank : play_samples (queue_of rbuf) blank grain ≡ (splice blank 0 bytes, rest) =
        ground (arith, enough) in
      (
        out
            ∙ ap (λ (o : List ℕ). (o, rest))
                (splice-whole outputs bytes (len_bytes ∙ sym len)
                  ∙ sym (splice-whole blank bytes (len_bytes ∙ sym quiet)))
            ∙ sym out_blank,
        ap (λ (r : List ℕ × Queue). length r.0) out
            ∙ ap length (splice-whole outputs bytes (len_bytes ∙ sym len))
            ∙ len_bytes,
      )
]

pub grain_small : grain < 2 ^ 63
unfolding grain
grain_small = omega arith
