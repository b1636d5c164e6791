-- ===== src/Audio/Ps5/Setup.antt =====
-- `rawr_AudioStream_Setup` of src/AudioPS5.c: what it makes, and what it leaves behind when it fails.
use rawr.Common.{ℕ, ◌*◌, ◌^◌, ◌≤◌, ◌<◌, ◌≡◌, refl, ◌∙◌, arith, Bool, true, false, not, ◌&&◌}
use rawr.Common.{if◌then◌else◌, ℤ, pos, u32, some, none, success, failure, inl, inr, Bool-cases}
use rawr.RingBuffer.Invariant.{used}
use rawr.Audio.Stream.{AudioStream, StreamMemory, ring_samples, new_stream, sample_bytes}
use rawr.Audio.Stream.Rings.{IsStream}
use rawr.Audio.Stream.Setup.{
  Gives, ring_samples_pass, made_ring, ring_order, ring_facts, element_size_ring,
}
use rawr.Audio.Ps5.{
  Owned, nothing_owned, Services, is_given, start_services, ps5_setup, ps5_cleanup,
}

-- The size of the rings never stops a setup.
ps5_setup-services :
    (memory : StreamMemory) (services : Services) (sample_rate : ℕ) (channel_count sample_count : ℤ)
    → memory.stream ≡ true
    → ps5_setup memory services sample_rate channel_count sample_count
      ≡ start_services memory services
          (new_stream sample_rate channel_count sample_count
            (made_ring memory.data_to sample_count)
            (made_ring memory.data_from sample_count))
          (record nothing_owned {
            stream = true;
            data_to = is_given (memory.data_to (u32 (ring_samples sample_count * sample_bytes)));
            data_from =
                is_given (memory.data_from (u32 (ring_samples sample_count * sample_bytes)));
          })
unfolding ps5_setup
ps5_setup-services memory services sample_rate channel_count sample_count m =
    rw (m, ring_samples_pass sample_count _, ring_samples_pass sample_count _) refl

-- What a failed setup leaves behind: without memory for the private part, the stream and the rings'
-- data; otherwise no memory, but the user service, where that was initialized.
abbrev pub left_behind : StreamMemory → Services → ℤ → Owned
left_behind memory services sample_count =
    if memory.stream && not memory.private_part
    then record nothing_owned {
      stream = true;
      data_to = is_given (memory.data_to (u32 (ring_samples sample_count * sample_bytes)));
      data_from = is_given (memory.data_from (u32 (ring_samples sample_count * sample_bytes)));
    }
    else record nothing_owned {
      user_service = memory.stream && (memory.private_part && services.user_service);
    }

-- Whether all is had.
abbrev pub all_there : StreamMemory → Services → Bool
all_there memory services =
    memory.stream
    && (memory.private_part
        && (services.user_service && (services.audio_out && services.initial_user)))

module _ (memory : StreamMemory) (services : Services) (sample_rate : ℕ)
    (channel_count sample_count : ℤ) where
  -- A setup that lacks something fails and makes no stream. It leaves memory behind exactly where
  -- the stream had its memory and its private part has none: the stream and what the rings were
  -- given. It leaves the user service initialized exactly where that succeeded and a later service
  -- failed.
  pub ps5_setup-left_behind :
      all_there memory services ≡ false
      → let r = ps5_setup memory services sample_rate channel_count sample_count in
        (r.0 ≡ failure) × (r.1 ≡ none) × (r.2 ≡ left_behind memory services sample_count)
  unfolding ps5_setup start_services
  ps5_setup-left_behind lacking = elim (Bool-cases memory.stream) [
    | inr m ↦ rw m (refl, refl, refl)
    | inl m ↦
        rw (ps5_setup-services memory services sample_rate channel_count sample_count m, m)
          (ground (arith, m, lacking))
  ]

-- With memory for everything and all services there, a setup for packets of 1 up to 2^30 / 10 samples
-- makes a well-formed stream with two empty rings, each of at least ten packets, and a cleanup then
-- leaves nothing behind.
ps5_setup-IsStream :
    (packet : ℕ)
    → 0 < packet
    → packet * 10 ≤ 2 ^ 30
    → (memory : StreamMemory) (services : Services) (sample_rate : ℕ) (channel_count : ℤ)
    → all_there memory services ≡ true
    → Gives memory.data_to (u32 (ring_samples (pos packet) * sample_bytes))
    → Gives memory.data_from (u32 (ring_samples (pos packet) * sample_bytes))
    → (order : ℕ) × (stream : AudioStream) × (owned : Owned) × (ps5_setup memory services
          sample_rate channel_count
          (pos packet)
        ≡ (success, some stream, owned))
      × IsStream order packet stream
      × (used stream.rb_to_device ≡ 0)
      × (used stream.rb_from_device ≡ 0)
      × (packet * 10 ≤ 2 ^ order)
      × (ps5_cleanup owned ≡ nothing_owned)
unfolding start_services ps5_cleanup
ps5_setup-IsStream packet some_samples fits memory services sample_rate channel_count all to from =
    let (k, k_le, e, above, below) = ring_order packet some_samples fits in
    let to_facts = ring_facts packet some_samples fits memory.data_to to in
    let from_facts = ring_facts packet some_samples fits memory.data_from from in
    let m : memory.stream ≡ true = ground (arith, all) in
    let p : memory.private_part ≡ true = ground (arith, all) in
    let u : services.user_service ≡ true = ground (arith, all) in
    let a : services.audio_out ≡ true = ground (arith, all) in
    let i : services.initial_user ≡ true = ground (arith, all) in
    let num_bytes = u32 (ring_samples (pos packet) * sample_bytes) in
    (
      k,
      new_stream sample_rate channel_count (pos packet) (made_ring memory.data_to (pos packet))
          (made_ring memory.data_from (pos packet)),
      record {
        stream = true;
        private_part = true;
        data_to = is_given (memory.data_to num_bytes);
        data_from = is_given (memory.data_from num_bytes);
        user_service = true;
      },
      ps5_setup-services memory services sample_rate channel_count (pos packet) m
          ∙ rw (start_services, p, u, a, i) refl,
      record {
        to_device = to_facts.0;
        from_device = from_facts.0;
        to_samples = element_size_ring packet some_samples fits memory.data_to;
        from_samples = element_size_ring packet some_samples fits memory.data_from;
        packet_eq = refl;
        packet_le = omega (arith, above);
      },
      to_facts.1,
      from_facts.1,
      above,
      refl,
    )
