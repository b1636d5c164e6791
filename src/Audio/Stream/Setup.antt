-- ===== src/Audio/Stream/Setup.antt =====
-- `rawr_AudioStream_Setup`: when it succeeds, and the stream that it makes.
use rawr.Common.{ℕ, ◌*◌, ◌^◌, ◌≤◌, ◌<◌, ◌≡◌, refl, sym, ap, ◌∙◌, subst, arith}
use rawr.Common.{true, List, Option, some, length, ℤ, pos, u32}
use rawr.Common.{◌⊎◌, inl, inr}
use rawr.RingBuffer.{RingBuffer, initialize}
use rawr.RingBuffer.Invariant.{IsValid, used}
use rawr.RingBuffer.Init.{initialize_iff, initialize-IsValid, element_size-initialize}
use rawr.Util.{next_power_of2}
use rawr.Util.PowerOf2.{next_power_of2-least, next_power_of2-wraps}
use rawr.Audio.Stream.{AudioStream, StreamMemory, made, stream_setup, ring_samples, new_stream}
use rawr.Audio.Stream.{sample_bytes, zeroed, block, to_unsigned}
use rawr.Audio.Stream.Rings.{IsStream}
use native.Mathlib.Decide.{dec_lt, ℕ_discrete}
use native.Mathlib.Nat.{pow-le-pow_right, mod-eq_of_lt}

power_or_zero :
    (val : ℕ)
    → val < 2 ^ 32
    → (next_power_of2 val ≡ 0) ⊎ ((k : ℕ) × (k ≤ 31) × (next_power_of2 val ≡ 2 ^ k))
power_or_zero val h = elim (ℕ_discrete val 0) [
  | yes z ↦ inl (next_power_of2-wraps val h (inl z))
  | no nz ↦ elim (dec_lt (2 ^ 31) val) [
    | yes over ↦ inl (next_power_of2-wraps val h (inr over))
    | no within ↦
        let r = next_power_of2-least val (omega arith) (omega arith) in inr (r.0, r.1, r.2)
  ]
]

-- The ring's size always passes the check of `rawr_RingBuffer_Initialize`.
pub ring_samples_pass :
    (sample_count : ℤ) (bytes : List ℕ)
    → (initialize zeroed sample_bytes (ring_samples sample_count) bytes).0 ≡ 0
unfolding ring_samples
ring_samples_pass sample_count bytes =
    let val = u32 (to_unsigned sample_count * 10) in
    elim (power_or_zero val (omega arith)) [
      | inl z ↦ (initialize_iff zeroed sample_bytes _ bytes (omega (arith, z))).1 (inl z)
      | inr (k, k_le, e) ↦
          (initialize_iff zeroed sample_bytes _ bytes
              (omega (arith, e, pow-le-pow_right {n = 2} (omega arith) k_le))).1
            (inr (k, e))
    ]

-- The rings of a new stream: each as `rawr_RingBuffer_Initialize` leaves it over the memory given.
abbrev pub made_ring : (ℕ → Option (List ℕ)) → ℤ → RingBuffer
made_ring allot sample_count =
    (initialize zeroed sample_bytes (ring_samples sample_count)
      (block (allot (u32 (ring_samples sample_count * sample_bytes))))).1

pub stream_setup-made :
    (memory : StreamMemory) (sample_rate : ℕ) (channel_count sample_count : ℤ)
    → memory.stream ≡ true
    → memory.private_part ≡ true
    → stream_setup memory sample_rate channel_count sample_count
      ≡ made (
          new_stream sample_rate channel_count sample_count
            (made_ring memory.data_to sample_count)
            (made_ring memory.data_from sample_count))
unfolding stream_setup
stream_setup-made memory sample_rate channel_count sample_count m p =
    rw (m, p, ring_samples_pass sample_count _, ring_samples_pass sample_count _) refl

-- A setup that gets memory for the stream and its private part succeeds, whatever its arguments are
-- and whatever memory the rings get: neither ring's size is ever refused.
stream_setup-succeeds :
    (memory : StreamMemory) (sample_rate : ℕ) (channel_count sample_count : ℤ)
    → memory.stream ≡ true
    → memory.private_part ≡ true
    → (stream : AudioStream) × (stream_setup memory sample_rate channel_count sample_count
        ≡ made stream)
stream_setup-succeeds memory sample_rate channel_count sample_count m p =
    (_, stream_setup-made memory sample_rate channel_count sample_count m p)

-- A request for memory that is met.
abbrev pub Gives : (ℕ → Option (List ℕ)) → ℕ → Type 0
Gives allot n = (bytes : List ℕ) × (allot n ≡ some bytes) × (length bytes ≡ n)

module _ (packet : ℕ) (some_samples : 0 < packet) (fits : packet * 10 ≤ 2 ^ 30) where
  pub ring_order :
      (k : ℕ) × (k ≤ 30)
      × (ring_samples (pos packet) ≡ 2 ^ k)
      × (packet * 10 ≤ 2 ^ k)
      × (2 ^ k < 2 * (packet * 10))
  unfolding ring_samples
  ring_order =
      let val_eq : u32 (u32 packet * 10) ≡ packet * 10 = omega (arith, fits) in
      let (k, k_le, e, above, below) =
        next_power_of2-least (packet * 10) (omega (arith, some_samples)) (omega (arith, fits)) in
      let within : k ≤ 30 = elim (dec_lt 30 k) [
        | yes top ↦
            let big : 2 ^ 31 ≤ 2 ^ k = pow-le-pow_right {n = 2} (omega arith) top in
            omega (arith, below, fits, big)
        | no low ↦ omega (arith, low)
      ] in
      (k, within, ap next_power_of2 val_eq ∙ e, above, below)

  ring_bytes : u32 (ring_samples (pos packet) * sample_bytes) ≡ 2 ^ ring_order.0 * sample_bytes
  ring_bytes =
      let (k, k_le, e, above, below) = ring_order in
      let small : 2 ^ k ≤ 2 ^ 30 = pow-le-pow_right {n = 2} (omega arith) k_le in
      ap (λ n. u32 (n * sample_bytes)) e ∙ mod-eq_of_lt (omega (arith, small))

  pub ring_facts :
      (allot : ℕ → Option (List ℕ))
      → Gives allot (u32 (ring_samples (pos packet) * sample_bytes))
      → IsValid ring_order.0 (made_ring allot (pos packet))
        × (used (made_ring allot (pos packet)) ≡ 0)
  ring_facts allot (bytes, got, len) =
      let (k, k_le, e, above, below) = ring_order in
      let small : 2 ^ k ≤ 2 ^ 30 = pow-le-pow_right {n = 2} (omega arith) k_le in
      let blk : List ℕ = block (allot (u32 (ring_samples (pos packet) * sample_bytes))) in
      let len_blk : length blk ≡ 2 ^ k * sample_bytes =
        ap (λ o. length (block o)) got ∙ len ∙ ring_bytes in
      let fresh =
        initialize-IsValid zeroed sample_bytes k blk (omega (arith, k_le)) (omega arith) len_blk
          (omega (arith, len_blk, small)) in
      subst
        (λ count.
          IsValid k (initialize zeroed sample_bytes count blk).1
          × (used (initialize zeroed sample_bytes count blk).1 ≡ 0))
        (sym e) (fresh.1, fresh.2)

  pub element_size_ring :
      (allot : ℕ → Option (List ℕ))
      → (made_ring allot (pos packet)).element_size_bytes ≡ sample_bytes
  element_size_ring allot =
      element_size-initialize zeroed sample_bytes (ring_samples (pos packet)) _
        (ring_samples_pass (pos packet) _)

  -- A setup for packets of 1 up to 2^30 / 10 samples, with all its memory given, makes a well-formed
  -- stream. Both rings are empty; each holds at least ten packets, and fewer than twenty.
  pub stream_setup-IsStream :
      (memory : StreamMemory) (sample_rate : ℕ) (channel_count : ℤ)
      → memory.stream ≡ true
      → memory.private_part ≡ true
      → Gives memory.data_to (u32 (ring_samples (pos packet) * sample_bytes))
      → Gives memory.data_from (u32 (ring_samples (pos packet) * sample_bytes))
      → (order : ℕ) × (stream : AudioStream) × (stream_setup memory sample_rate channel_count
            (pos packet)
          ≡ made stream)
        × IsStream order packet stream
        × (used stream.rb_to_device ≡ 0)
        × (used stream.rb_from_device ≡ 0)
        × (packet * 10 ≤ 2 ^ order)
        × (2 ^ order < 2 * (packet * 10))
  stream_setup-IsStream memory sample_rate channel_count m p to from =
      let (k, k_le, e, above, below) = ring_order in
      let to_facts = ring_facts memory.data_to to in
      let from_facts = ring_facts memory.data_from from in
      (
        ring_order.0,
        _,
        stream_setup-made memory sample_rate channel_count (pos packet) m p,
        record {
          to_device = to_facts.0;
          from_device = from_facts.0;
          to_samples = element_size_ring memory.data_to;
          from_samples = element_size_ring memory.data_from;
          packet_eq = refl;
          packet_le = omega (arith, above);
        },
        to_facts.1,
        from_facts.1,
        above,
        below,
      )
