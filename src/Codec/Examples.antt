-- ===== src/Codec/Examples.antt =====
-- Runs of src/Codec.c.
use rawr.Common.{◌≡◌, refl, arith, Bool, true, false, [], ◌∷◌, some, none}
use rawr.Common.{success, failure, pos, returns}
use rawr.Codec.{Opus, Codec, encoder, setup}
use rawr.Codec.{encode, frame_size}
use rawr.Codec.{frame_size_code, framesize_20_ms, settings, apply_settings}
use rawr.Codec.{Ctl, set_dtx}
use rawr.Codec.{cleanup, Codec, nothing_held}
use rawr.Common.{◌⊎◌}
use rawr.Codec.Resources.{Needs, Accepts, setup-accounts}

-- An Opus that does all it is asked: it codes every frame into three bytes.
abbrev willing : Opus
willing = record {
  codec_memory = true;
  priv_memory = true;
  encoder_ok = true;
  encoder_pointer = true;
  decoder_ok = true;
  decoder_pointer = true;
  encoder_ctl = λ request value. true;
  encode = λ samples size. pos 3;
  decode = λ packet size. pos 960;
}

-- One that refuses discontinuous transmission.
abbrev without_dtx : Opus
without_dtx = record willing { encoder_ctl = λ request value. accepts request }
  where
    accepts : Ctl → Bool
    accepts set_dtx = false
    accepts _ = true

abbrev voice : Codec
voice = record {
  codec_type = encoder;
  sample_rate = 48000;
  frame_size = 960;
  frame_size_code = framesize_20_ms;
  opus_enc = true;
  opus_dec = false;
}

setup-voice :
    setup willing encoder 48000 20
    ≡ (success, some voice, record { codec = true; priv = true; encoder = true; decoder = false })
unfolding setup apply_settings settings frame_size frame_size_code
setup-voice = refl

setup_refused :
    setup without_dtx encoder 48000 20
    ≡ (failure, none, record { codec = false; priv = false; encoder = true; decoder = false })
unfolding setup apply_settings settings
setup_refused = refl

encode_voice : encode willing voice (1 ∷ 2 ∷ []) ≡ returns (pos 3)
unfolding encode
encode_voice = refl

setup-willing : (setup willing encoder 48000 20).0 ≡ success
unfolding setup apply_settings settings
setup-willing = refl

without_dtx-refuses : ¬ Accepts without_dtx (settings (frame_size_code 48000 (frame_size 48000 20)))
unfolding settings
without_dtx-refuses h = ground arith

setup-accounts_example :
    Needs without_dtx encoder 48000 20
      × ((setup without_dtx encoder 48000 20).0 ≡ success)
      × ((codec : Codec) × ((setup without_dtx encoder 48000 20).1 ≡ some codec)
          × (codec.frame_size ≡ frame_size 48000 20)
          × (cleanup codec (setup without_dtx encoder 48000 20).2 ≡ nothing_held))
    ⊎ (¬ Needs without_dtx encoder 48000 20)
      × ((setup without_dtx encoder 48000 20).0 ≡ failure)
      × ((setup without_dtx encoder 48000 20).1 ≡ none)
      × ((setup without_dtx encoder 48000 20).2
          ≡ record { codec = false; priv = false; encoder = true; decoder = false })
setup-accounts_example = setup-accounts without_dtx encoder 48000 20
