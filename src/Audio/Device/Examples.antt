-- ===== src/Audio/Device/Examples.antt =====
-- Runs of the device functions.
use rawr.Common.{arith, ◌≡◌, refl, true, false, List, [], some}
use rawr.Common.{pos, ◌==◌, if◌then◌else◌, length, get_elem?}
use rawr.Audio.Device.{PortAudio, AudioDevice, AudioPrivate, null, filled}
use rawr.Audio.Device.{describe, device_props, rate_flags, setup}
use rawr.Audio.Device.Setup.{IsDescribed, setup-lists}

-- A microphone, and a stereo loudspeaker that is the default output; both run at 48000 alone.
abbrev desk : PortAudio
desk = record {
  initialize = pos 0;
  terminate = pos 0;
  get_device_count = pos 2;
  get_default_input_device = pos 0;
  get_default_output_device = pos 1;
  get_device_info = λ d. record {
    name = [];
    max_input_channels = if d == 0 then pos 1 else pos 0;
    max_output_channels = if d == 0 then pos 0 else pos 2;
  };
  is_format_supported = λ inputs outputs rate. rate == 48000;
  list_memory = true;
  device_memory = λ d. true;
}

abbrev before : AudioPrivate
before = record {
  initialized = false;
  default_input_id = pos 0;
  default_output_id = pos 0;
  device_list = null;
  device_count = pos 0;
}

-- Default, output and stereo output; bit 9 for 48000.
speaker : (describe desk 1).props ≡ 11
unfolding describe device_props
speaker = refl

speaker_rates : (describe desk 1).rates ≡ 512
unfolding describe rate_flags
speaker_rates = refl

setup-lists_example :
    ((setup desk before).0 ≡ pos 0)
    × (devices : List AudioDevice) × ((setup desk before).1.device_list ≡ filled devices)
    × (length devices ≡ 2)
    × ((device : AudioDevice) × (get_elem? devices 1 ≡ some device) × IsDescribed desk 1 device)
setup-lists_example = setup-lists desk before 1 refl refl refl refl (λ d. refl) 1 (omega arith)
