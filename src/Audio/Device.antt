-- ===== src/Audio/Device.antt =====
-- The device list of src/AudioPA.c: `rawr_Audio_Setup`, `rawr_Audio_Cleanup` and the functions of a
-- device. PortAudio is not part of the repository's own code: its answers are the argument
-- `PortAudio`.
pub mod Flags
pub mod Setup
mod Examples
use rawr.Common.{ℕ, zero, suc, ◌+◌, ◌-◌, ◌*◌, ◌^◌, ◌≡◌, Bool, true, false, not, ◌&&◌, ◌||◌}
use rawr.Common.{List, [], ◌∷◌, ◌++◌, Option, none, some, bit_or, length, get_elem?}
use rawr.Common.{ltb, leb, ◌==◌, if◌then◌else◌, ℤ, pos, negsuc, int_ltb, int_eq, is_negative}
use rawr.Common.{Outcome, returns, aborts}

-- `PaDeviceInfo`
pub record DeviceInfo : Type 0 where
  pub name : List ℕ
  pub max_input_channels : ℤ
  pub max_output_channels : ℤ

-- The `PaStreamParameters` of a format test: the device and its channels (the sample format is
-- always `paInt16`, the latency 0).
pub record FormatParameters : Type 0 where
  pub device : ℕ
  pub channel_count : ℤ

-- What the calls out of the file answer. `initialize` and `terminate` are a `PaError`, 0 for none.
pub record PortAudio : Type 0 where
  pub initialize : ℤ
  pub terminate : ℤ
  pub get_device_count : ℤ
  pub get_default_input_device : ℤ
  pub get_default_output_device : ℤ
  pub get_device_info : ℕ → DeviceInfo
  pub is_format_supported : Option FormatParameters → Option FormatParameters → ℕ → Bool
  pub list_memory : Bool
  pub device_memory : ℕ → Bool

pub record AudioDevice : Type 0 where
  pub device_info : DeviceInfo
  pub id : ℕ
  pub props : ℕ
  pub rates : ℕ

-- `deviceList`: NULL, the entries filled in so far, or a pointer to memory that was released.
pub data DeviceList : Type 0 where
  null : DeviceList
  filled : List AudioDevice → DeviceList
  dangling : DeviceList

pub record AudioPrivate : Type 0 where
  pub initialized : Bool
  pub default_input_id : ℤ
  pub default_output_id : ℤ
  pub device_list : DeviceList
  pub device_count : ℤ

-- `rawr_AudioDeviceProps`
abbrev pub default_flag : ℕ
default_flag = 1

abbrev pub output_flag : ℕ
output_flag = 2

abbrev pub input_flag : ℕ
input_flag = 4

abbrev pub output_stereo_flag : ℕ
output_stereo_flag = 8

abbrev pub input_stereo_flag : ℕ
input_stereo_flag = 16

-- `rawr_AudioRateList`, up to the entry that ends it.
abbrev pub rate_list : List ℕ
rate_list =
    8000 ∷ 9600 ∷ 11025 ∷ 12000 ∷ 16000 ∷ 22050 ∷ 24000 ∷ 32000 ∷ 44100 ∷ 48000 ∷ 88200 ∷ 96000
    ∷ 192000 ∷ []

-- `if (condition) flags |= flag;`
abbrev or_if : Bool → ℕ → ℕ → ℕ
or_if condition flag flags = if condition then bit_or flags flag else flags

-- The loop over the rates from the `r`-th on: bit `r` is set for a rate that is supported.
pub rate_flags : (ℕ → Bool) → List ℕ → ℕ → ℕ → ℕ
rate_flags supported [] r flags = flags
rate_flags supported (rate ∷ rates) r flags =
    rate_flags supported rates (r + 1) (or_if (supported rate) (2 ^ r) flags)

-- `dev->props` of a device, flag by flag in the order of the code.
pub device_props : Bool → ℤ → ℤ → ℕ
device_props is_default input_channels output_channels =
    or_if (int_ltb (pos 1) output_channels) output_stereo_flag (
      or_if (int_ltb (pos 0) output_channels) output_flag (
        or_if (int_ltb (pos 1) input_channels) input_stereo_flag
          (or_if (int_ltb (pos 0) input_channels) input_flag (or_if is_default default_flag 0))))

-- The parameters of a direction, or NULL if it has no channels.
parameters : ℕ → ℤ → Option FormatParameters
parameters d channels =
    if int_ltb (pos 0) channels
    then some (record { device = d; channel_count = channels })
    else none

-- One pass of the loop over the devices.
pub describe : PortAudio → ℕ → AudioDevice
unfolding parameters
describe pa d =
    let info = pa.get_device_info d in
    let is_default =
      int_eq (pos d) pa.get_default_input_device || int_eq (pos d) pa.get_default_output_device in
    record {
      device_info = info;
      id = d;
      props = device_props is_default info.max_input_channels info.max_output_channels;
      rates =
          rate_flags
            (pa.is_format_supported (parameters d info.max_input_channels)
              (parameters d info.max_output_channels))
            rate_list 0 0;
    }

-- The loop from device `d` on, with `left` devices to go; it ends early at a device for which there
-- is no memory. The result is what has been filled in, and whether the loop came to its end.
pub describe_all : PortAudio → ℕ → ℕ → List AudioDevice × Bool
describe_all pa d zero = ([], true)
describe_all pa d (suc left) =
    if pa.device_memory d
    then (let (devices, done) = describe_all pa (d + 1) left in (describe pa d ∷ devices, done))
    else ([], false)

-- `(int)n` for a count that is not negative.
abbrev pub count_of : ℤ → ℕ
count_of (pos n) = n
count_of (negsuc n) = 0

-- The result is `err` on every failure, and `rawr_Success` otherwise; `err` is what `Pa_Initialize`
-- returned.
pub setup : PortAudio → AudioPrivate → ℤ × AudioPrivate
setup pa priv =
    if priv.initialized
    then (pos 0, priv)
    else if not (int_eq pa.initialize (pos 0))
    then (pa.initialize, priv)
    else if int_ltb pa.get_device_count (pos 1)
    then (pa.initialize, record priv { initialized = true; device_count = pa.get_device_count })
    else if not pa.list_memory
    then (
      pa.initialize,
      record priv { initialized = true; device_count = pa.get_device_count; device_list = null },
    )
    else (let (devices, done) = describe_all pa 0 (count_of pa.get_device_count) in
        (
          if done then pos 0 else pa.initialize,
          record {
            initialized = true;
            default_input_id = pa.get_default_input_device;
            default_output_id = pa.get_default_output_device;
            device_list = filled devices;
            device_count = pa.get_device_count;
          },
        ))

-- Every `priv` of the list can be read.
releasable : DeviceList → ℕ → Bool
releasable (filled devices) n = leb n (length devices)
releasable null n = n == 0
releasable dangling n = false

freed : DeviceList → DeviceList
freed null = null
freed (filled devices) = dangling
freed dangling = dangling

-- The loop of `rawr_Audio_Cleanup` reads `priv` of every entry up to `device_count`: through NULL,
-- past the entries filled in, or in released memory it is `aborts`.
pub cleanup : PortAudio → AudioPrivate → Outcome (ℤ × AudioPrivate)
unfolding releasable freed
cleanup pa priv =
    if not priv.initialized
    then returns (pos 0, priv)
    else if releasable priv.device_list (count_of priv.device_count)
    then returns
        (pa.terminate, record priv { initialized = false; device_list = freed priv.device_list })
    else aborts

-- `deviceList + n`; a pointer that is NULL or dangles leads to no device.
entry : DeviceList → ℕ → Option AudioDevice
entry null n = none
entry (filled devices) n = get_elem? devices n
entry dangling n = none

-- `deviceList + id` where the id is inside the list.
at_id : AudioPrivate → ℤ → Option AudioDevice
unfolding entry
at_id priv id =
    if is_negative id || not (int_ltb id priv.device_count)
    then none
    else entry priv.device_list (count_of id)

pub default_input : AudioPrivate → Option AudioDevice
unfolding at_id
default_input priv = at_id priv priv.default_input_id

pub default_output : AudioPrivate → Option AudioDevice
unfolding at_id
default_output priv = at_id priv priv.default_output_id

unfoldable pub output_channels : AudioDevice → ℤ
output_channels dev = dev.device_info.max_output_channels

unfoldable pub input_channels : AudioDevice → ℤ
input_channels dev = dev.device_info.max_input_channels
