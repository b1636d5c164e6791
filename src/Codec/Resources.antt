-- ===== src/Codec/Resources.antt =====
-- When `rawr_Codec_Setup` succeeds, what is held after it and after `rawr_Codec_Cleanup`, and what
-- its failures leave behind.
use mathlib.Core.Option.{some-injective}
use rawr.Common.{ℕ, sym, subst, ◌≡◌, refl, ◌∙◌, arith, ◌↔◌, ◌≤◌, true, false, Bool-cases, inl, inr}
use rawr.Common.{List, [], ◌∷◌, none, some, success, failure, ℤ, pos, negsuc}
use rawr.Common.{returns, not, if◌then◌else◌, ErrorCode, ◌⊎◌}
use rawr.Codec.{Held, Opus, Codec, CodecType, encoder, decoder, nothing_held, Ctl, CtlValue}
use rawr.Codec.{FrameSizeCode, frame_size, frame_size_code, settings, apply_settings}
use rawr.Codec.{setup, cleanup, encode, decode, check_samples, output_bytes_max, input_bytes_max}

-- Every request of the list is accepted.
abbrev pub Accepts : Opus → List (Ctl × CtlValue) → Type 0
Accepts opus [] = Unit
Accepts opus ((request, value) ∷ rest) = (opus.encoder_ctl request value ≡ true) × Accepts opus rest

-- What `rawr_Codec_Setup` needs of Opus for a codec of each type.
abbrev pub Creates : Opus → CodecType → FrameSizeCode → Type 0
Creates opus encoder code =
    (opus.encoder_ok ≡ true) × (opus.encoder_pointer ≡ true) × Accepts opus (settings code)
Creates opus decoder code = (opus.decoder_ok ≡ true) × (opus.decoder_pointer ≡ true)

apply_settings_iff :
    (opus : Opus) (list : List (Ctl × CtlValue))
    → (apply_settings opus list ≡ true) ↔ Accepts opus list
unfolding apply_settings
apply_settings_iff opus [] = (λ _. tt, λ _. refl)
apply_settings_iff opus ((request, value) ∷ rest) =
    let ih = apply_settings_iff opus rest in
    elim (Bool-cases (opus.encoder_ctl request value)) [
      | inl e ↦ rw e (λ h. (refl, ih.0 h), λ h. ih.1 h.1)
      | inr e ↦ rw e (λ h. cc, λ h. cc)
    ]

-- A codec is set up exactly when there is memory for both of its parts, Opus creates its object, and
-- an encoder accepts every setting.
setup_iff :
    (opus : Opus) (codec_type : CodecType) (sample_rate timing : ℕ)
    → ((setup opus codec_type sample_rate timing).0 ≡ success) ↔ (
        (opus.codec_memory ≡ true)
        × (opus.priv_memory ≡ true)
        × Creates opus codec_type (frame_size_code sample_rate (frame_size sample_rate timing)))
unfolding setup
setup_iff opus encoder sample_rate timing =
    let code = frame_size_code sample_rate (frame_size sample_rate timing) in
    let accepted = apply_settings_iff opus (settings code) in
    (
      λ h. (ground arith, ground arith, (ground arith, ground arith, accepted.0 (ground arith))),
      λ h. let all = accepted.1 h.2.2 in ground (arith, all),
    )
setup_iff opus decoder sample_rate timing =
    (λ h. (ground arith, ground arith, (ground arith, ground arith)), λ h. ground arith)

-- What a successful setup holds: both blocks of memory, and the one object of the codec's type; the
-- codec has the frame size and the code of its rate and duration.
setup-held :
    (opus : Opus) (codec_type : CodecType) (sample_rate timing : ℕ)
    → (setup opus codec_type sample_rate timing).0 ≡ success
    → (codec : Codec) × ((setup opus codec_type sample_rate timing).1 ≡ some codec)
      × (codec.frame_size ≡ frame_size sample_rate timing)
      × (codec.frame_size_code ≡ frame_size_code sample_rate (frame_size sample_rate timing))
      × ((setup opus codec_type sample_rate timing).2 ≡ record {
        codec = true;
        priv = true;
        encoder = codec.opus_enc;
        decoder = codec.opus_dec;
      })
unfolding setup
setup-held opus encoder sample_rate timing h = (
  record {
    codec_type = encoder;
    sample_rate = sample_rate;
    frame_size = frame_size sample_rate timing;
    frame_size_code = frame_size_code sample_rate (frame_size sample_rate timing);
    opus_enc = true;
    opus_dec = false;
  },
  ground arith,
  refl,
  refl,
  ground arith,
)
setup-held opus decoder sample_rate timing h = (
  record {
    codec_type = decoder;
    sample_rate = sample_rate;
    frame_size = frame_size sample_rate timing;
    frame_size_code = frame_size_code sample_rate (frame_size sample_rate timing);
    opus_enc = false;
    opus_dec = true;
  },
  ground arith,
  refl,
  refl,
  ground arith,
)

-- Cleaning up what a successful setup returned leaves nothing held.
cleanup-setup :
    (opus : Opus) (codec_type : CodecType) (sample_rate timing : ℕ) {codec : Codec}
    → (setup opus codec_type sample_rate timing).0 ≡ success
    → (setup opus codec_type sample_rate timing).1 ≡ some codec
    → cleanup codec (setup opus codec_type sample_rate timing).2 ≡ nothing_held
unfolding cleanup
cleanup-setup opus codec_type sample_rate timing {codec} h e =
    let s = setup-held opus codec_type sample_rate timing h in
    let same : s.0 ≡ codec = some-injective s.0 codec (sym s.1 ∙ e) in
    subst (λ c. cleanup c (setup opus codec_type sample_rate timing).2 ≡ nothing_held) same
      (rw s.4 (ground arith))

-- What a setup needs.
abbrev pub Needs : Opus → CodecType → ℕ → ℕ → Type 0
Needs opus codec_type sample_rate timing =
    (opus.codec_memory ≡ true)
    × (opus.priv_memory ≡ true)
    × Creates opus codec_type (frame_size_code sample_rate (frame_size sample_rate timing))

-- What Opus made, whether or not it could be used.
abbrev pub objects_of : Opus → CodecType → Held
objects_of opus encoder = record nothing_held { encoder = opus.encoder_pointer }
objects_of opus decoder = record nothing_held { decoder = opus.decoder_pointer }

-- What a failed setup leaves behind: the codec's block where the memory of its private part is
-- missing, and the object of Opus where both blocks were had.
abbrev pub left_behind : Opus → CodecType → Held
left_behind opus codec_type =
    if not opus.codec_memory
    then nothing_held
    else if not opus.priv_memory
    then record nothing_held { codec = true }
    else objects_of opus codec_type

setup-left_behind :
    (opus : Opus) (codec_type : CodecType) (sample_rate timing : ℕ)
    → (setup opus codec_type sample_rate timing).0 ≡ failure
    → ((setup opus codec_type sample_rate timing).1 ≡ none)
      × ((setup opus codec_type sample_rate timing).2 ≡ left_behind opus codec_type)
unfolding setup
setup-left_behind opus encoder sample_rate timing h = (ground arith, ground arith)
setup-left_behind opus decoder sample_rate timing h = (ground arith, ground arith)

ErrorCode-cases : (code : ErrorCode) → (code ≡ success) ⊎ (code ≡ failure)
ErrorCode-cases success = inl refl
ErrorCode-cases failure = inr refl

-- A setup either has all that it needs, which is memory for both parts of the codec, an object from
-- Opus and, for an encoder, every setting accepted. Then it succeeds with a codec of the frame size of
-- its rate and duration, and a cleanup of that codec leaves nothing held. Or it lacks something. Then it
-- fails and gives no codec, and leaves behind: nothing without memory for the codec; the codec's memory
-- without memory for its private part; and otherwise the object of Opus, where Opus gave one, such as an
-- encoder that refused a setting, while both blocks of memory are given back.
pub setup-accounts :
    (opus : Opus) (codec_type : CodecType) (sample_rate timing : ℕ)
    → let (code, out_codec, held) = setup opus codec_type sample_rate timing in
      Needs opus codec_type sample_rate timing
        × (code ≡ success)
        × ((codec : Codec) × (out_codec ≡ some codec)
            × (codec.frame_size ≡ frame_size sample_rate timing)
            × (cleanup codec held ≡ nothing_held))
      ⊎ (¬ Needs opus codec_type sample_rate timing)
        × (code ≡ failure)
        × (out_codec ≡ none)
        × (held ≡ left_behind opus codec_type)
setup-accounts opus codec_type sample_rate timing =
    let needs = setup_iff opus codec_type sample_rate timing in
    elim (ErrorCode-cases ((setup opus codec_type sample_rate timing).0)) [
      | inl ok ↦
          let (codec, given, size, _, _) = setup-held opus codec_type sample_rate timing ok in
          inl (
            needs.0 ok,
            ok,
            (codec, given, size, cleanup-setup opus codec_type sample_rate timing ok given),
          )
      | inr failed ↦
          let (no_codec, left) = setup-left_behind opus codec_type sample_rate timing failed in
          inr (λ all. let ok = needs.1 all in absurd (cc), failed, no_codec, left)
    ]

-- An encode that returns was given an encoder, and returns from 0 to `RAWR_CODEC_OUTPUT_BYTES_MAX`
-- bytes, as many as Opus says; any other answer of Opus ends the process.
encode_returns :
    (opus : Opus) (codec : Codec) (samples : List ℕ) (n : ℤ)
    → encode opus codec samples ≡ returns n
    → (k : ℕ) × (n ≡ pos k)
      × (k ≤ output_bytes_max)
      × (codec.opus_enc ≡ true)
      × (opus.encode samples codec.frame_size ≡ n)
unfolding encode
encode_returns opus codec samples (pos k) h = (k, refl, ground arith, ground arith, ground arith)
encode_returns opus codec samples (negsuc k) h = absurd (ground arith)

-- A decode that returns was given a decoder, and returns exactly one frame of samples.
decode_returns :
    (opus : Opus) (codec : Codec) (packet : List ℕ) (n : ℤ)
    → decode opus codec packet ≡ returns n
    → (n ≡ pos codec.frame_size) × (codec.opus_dec ≡ true)
unfolding decode
decode_returns opus codec packet n h = (ground arith, ground arith)

-- The converse, where Opus gives one frame.
pub decode_frame :
    (opus : Opus) (codec : Codec) (packet : List ℕ)
    → codec.opus_dec ≡ true
    → opus.decode packet input_bytes_max ≡ pos codec.frame_size
    → decode opus codec packet ≡ returns (pos codec.frame_size)
unfolding decode check_samples
decode_frame opus codec packet there frame = rw (there, frame) (ground arith)
