-- ===== src/Audio/Device/Setup.antt =====
-- `rawr_Audio_Setup`: the devices that it describes, the results that it gives, and the lookups of
-- the default devices after it.
use rawr.Common.{ℕ, zero, suc, ◌+◌, ◌≡◌, refl, ap, ◌∙◌, arith}
use rawr.Common.{true, false, List, [], ◌∷◌, Option, none, some, length, get_elem?}
use rawr.Common.{if◌then◌else◌, inl, inr, ℤ, pos, negsuc, int_eq, ◌⊎◌}
use rawr.Common.{returns, aborts, ltb}
use rawr.Audio.Device.{PortAudio, AudioDevice, AudioPrivate, filled, dangling}
use rawr.Audio.Device.{describe, describe_all, setup, cleanup, default_input, default_output}
use rawr.Audio.Device.{at_id, FormatParameters, rate_list}
use rawr.Audio.Device.Flags.{bit, bool_bit, bit-rate_flags, bit-device_props}
use rawr.Common.{◌||◌, int_ltb, ◌<◌}

ℤ-cases : (n : ℤ) → (n ≡ pos 0) ⊎ (int_eq n (pos 0) ≡ false)
ℤ-cases (pos zero) = inl refl
ℤ-cases (pos (suc n)) = inr (ground arith)
ℤ-cases (negsuc n) = inr refl

-- The result of a first setup is what `Pa_Initialize` returned, on every path.
setup-result :
    (pa : PortAudio) (priv : AudioPrivate)
    → priv.initialized ≡ false
    → (setup pa priv).0 ≡ pa.initialize
unfolding setup
setup-result pa priv h = elim (ℤ-cases pa.initialize) [
  | inl z ↦ rw z (ground arith)
  | inr nz ↦ ground arith
]

-- The devices from `d` on.
described : PortAudio → ℕ → ℕ → List AudioDevice
described pa d zero = []
described pa d (suc left) = describe pa d ∷ described pa (d + 1) left

describe_all-described :
    (pa : PortAudio) (memory : (d : ℕ) → pa.device_memory d ≡ true) (d left : ℕ)
    → describe_all pa d left ≡ (described pa d left, true)
unfolding describe_all described
describe_all-described pa memory d zero = refl
describe_all-described pa memory d (suc left) =
    rw (memory d, describe_all-described pa memory (d + 1) left)

length-described : (pa : PortAudio) (d left : ℕ) → length (described pa d left) ≡ left
unfolding described
length-described pa d zero = refl
length-described pa d (suc left) = ap suc (length-described pa (d + 1) left)

get_elem?-described :
    (pa : PortAudio) (d left i : ℕ)
    → get_elem? (described pa d left) i ≡ (if ltb i left then some (describe pa (d + i)) else none)
unfolding described
get_elem?-described pa d zero i = ground arith
get_elem?-described pa d (suc left) zero =
    ap (λ k. some (describe pa k)) {x = d} {y = d + 0} (omega arith) ∙ ground arith
get_elem?-described pa d (suc left) (suc i) =
    get_elem?-described pa (d + 1) left i
    ∙ ap (λ k. if ltb i left then some (describe pa k) else none) {x = d + 1 + i} {y = d + suc i}
        (omega arith)
    ∙ ground arith

-- The device of an id among `n`, or NULL.
abbrev pub listed : PortAudio → ℕ → ℤ → Option AudioDevice
listed pa n (pos i) = if ltb i n then some (describe pa i) else none
listed pa n (negsuc i) = none

-- The parameters of a format test in a direction with so many channels.
abbrev pub direction_of : ℕ → ℤ → Option FormatParameters
direction_of d channels =
    if int_ltb (pos 0) channels
    then some (record { device = d; channel_count = channels })
    else none

-- What the entry of device `d` says: its number and its information; in each bit of `rates`, whether
-- the rate of that place is supported with the channels that the device has, and nothing above the last
-- rate; and in the bits of `props`, whether it is a default device, has outputs, inputs, and more than
-- one of each.
pub record IsDescribed (pa : PortAudio) (d : ℕ) (device : AudioDevice) : Type 0 where
  pub id : device.id ≡ d
  pub info : device.device_info ≡ pa.get_device_info d
  pub rates :
      (r : ℕ)
      → bit device.rates r ≡ elim (get_elem? rate_list r) [
        | none ↦ 0
        | some rate ↦ bool_bit (
            pa.is_format_supported
              (direction_of d (pa.get_device_info d).max_input_channels)
              (direction_of d (pa.get_device_info d).max_output_channels)
              rate)
      ]
  pub is_default :
      bit device.props 0
      ≡ bool_bit (
          int_eq (pos d) pa.get_default_input_device || int_eq (pos d) pa.get_default_output_device)
  pub has_outputs :
      bit device.props 1 ≡ bool_bit (int_ltb (pos 0) (pa.get_device_info d).max_output_channels)
  pub has_inputs :
      bit device.props 2 ≡ bool_bit (int_ltb (pos 0) (pa.get_device_info d).max_input_channels)
  pub stereo_outputs :
      bit device.props 3 ≡ bool_bit (int_ltb (pos 1) (pa.get_device_info d).max_output_channels)
  pub stereo_inputs :
      bit device.props 4 ≡ bool_bit (int_ltb (pos 1) (pa.get_device_info d).max_input_channels)

describe-IsDescribed : (pa : PortAudio) (d : ℕ) → IsDescribed pa d (describe pa d)
unfolding describe
describe-IsDescribed pa d =
    let info = pa.get_device_info d in
    let (b0, b1, b2, b3, b4) =
      bit-device_props
        (int_eq (pos d) pa.get_default_input_device || int_eq (pos d) pa.get_default_output_device)
        info.max_input_channels info.max_output_channels in
    record {
      id = refl;
      info = refl;
      rates = λ r.
          bit-rate_flags
            (pa.is_format_supported (direction_of d info.max_input_channels)
              (direction_of d info.max_output_channels))
            rate_list r;
      is_default = b0;
      has_outputs = b1;
      has_inputs = b2;
      stereo_outputs = b3;
      stereo_inputs = b4;
    }

module _ (pa : PortAudio) (priv : AudioPrivate) (n : ℕ) (fresh : priv.initialized ≡ false)
    (initializes : pa.initialize ≡ pos 0) (count : pa.get_device_count ≡ pos (suc n))
    (list_memory : pa.list_memory ≡ true) (memory : (d : ℕ) → pa.device_memory d ≡ true) where
  -- The state that a setup with enough memory leaves.
  abbrev ready : AudioPrivate
  ready = record {
    initialized = true;
    default_input_id = pa.get_default_input_device;
    default_output_id = pa.get_default_output_device;
    device_list = filled (described pa 0 (suc n));
    device_count = pos (suc n);
  }

  setup-ready : setup pa priv ≡ (pos 0, ready)
  unfolding setup
  setup-ready = ground (arith, describe_all-described pa memory 0 (suc n))

  -- A first setup that finds devices, and memory for all of them, succeeds and lists every device
  -- in order and nothing else. The entry of each has its number and information; its rates are those
  -- that PortAudio supports with the channels that the device has; and its flags say whether it is a
  -- default device, and whether it has one or more outputs and inputs.
  pub setup-lists :
      (i : ℕ)
      → i < suc n
      → ((setup pa priv).0 ≡ pos 0)
        × (devices : List AudioDevice) × ((setup pa priv).1.device_list ≡ filled devices)
        × (length devices ≡ suc n)
        × ((device : AudioDevice) × (get_elem? devices i ≡ some device) × IsDescribed pa i device)
  setup-lists i inside =
      let in_list : ltb i (suc n) ≡ true = ground (arith, inside) in
      (
        ap (λ (r : ℤ × AudioPrivate). r.0) setup-ready,
        described pa 0 (suc n),
        ap (λ (r : ℤ × AudioPrivate). r.1.device_list) setup-ready,
        length-described pa 0 (suc n),
        (
          describe pa i,
          get_elem?-described pa 0 (suc n) i
              ∙ ap (λ k. if ltb i (suc n) then some (describe pa k) else none) {x = 0 + i} {y = i}
                  (omega arith)
              ∙ ap (λ b. if b then some (describe pa i) else none) in_list,
          describe-IsDescribed pa i,
        ),
      )

  lookup_ready :
      (id : ℕ)
      → get_elem? (described pa 0 (suc n)) id
        ≡ (if ltb id (suc n) then some (describe pa id) else none)
  lookup_ready id =
      get_elem?-described pa 0 (suc n) id
      ∙ ap (λ k. if ltb id (suc n) then some (describe pa k) else none) {x = 0 + id} {y = id}
          (omega arith)

  at_id-ready : (id : ℤ) → at_id ready id ≡ listed pa (suc n) id
  unfolding at_id
  at_id-ready (pos i) = ground (arith, lookup_ready i)
  at_id-ready (negsuc i) = refl

  -- After a first setup that finds devices and memory for all of them, each default lookup gives
  -- the device that PortAudio calls the default, and NULL for an id below 0 or past the list.
  defaults-setup :
      (default_input (setup pa priv).1 ≡ listed pa (suc n) pa.get_default_input_device)
      × (default_output (setup pa priv).1 ≡ listed pa (suc n) pa.get_default_output_device)
  unfolding default_input default_output
  defaults-setup =
      rw setup-ready
        (at_id-ready pa.get_default_input_device, at_id-ready pa.get_default_output_device)

  -- A cleanup after a first setup that found devices and memory for all of them releases every
  -- device and returns what `Pa_Terminate` does.
  cleanup-setup_audio :
      (after : AudioPrivate) × (cleanup pa (setup pa priv).1 ≡ returns (pa.terminate, after))
      × (after.initialized ≡ false)
      × (after.device_list ≡ dangling)
  unfolding cleanup
  cleanup-setup_audio = (
    record ready { initialized = false; device_list = dangling },
    rw setup-ready (ground (arith, length-described pa 0 (suc n))),
    refl,
    refl,
  )

-- Where a first setup finds devices and no memory for the list it still returns 0, and the cleanup
-- after it reads through the NULL list.
cleanup-no_memory :
    (pa : PortAudio) (priv : AudioPrivate) (n : ℕ)
    → priv.initialized ≡ false
    → pa.initialize ≡ pos 0
    → pa.get_device_count ≡ pos (suc n)
    → pa.list_memory ≡ false
    → ((setup pa priv).0 ≡ pos 0) × (cleanup pa (setup pa priv).1 ≡ aborts)
unfolding setup cleanup
cleanup-no_memory pa priv n fresh initializes count no_memory = (ground arith, ground arith)
