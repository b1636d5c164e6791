-- ===== src/Audio/Stream/Calls/Start.antt =====
-- `rawr_AudioStream_AddDevice` and `rawr_AudioStream_Start`: which devices a stream takes, and what
-- is left open when a start fails.
use rawr.Common.{◌≡◌, refl, arith, Bool, true, false, ◌&&◌, List, [], ◌∷◌}
use rawr.Common.{Option, none, some, ℤ, pos, int_eq, int_ltb, ◌⊎◌, inl, inr}
use rawr.Common.{ErrorCode, success, failure, Bool-cases}
use rawr.Audio.Device.{AudioDevice, output_channels, input_channels}
use rawr.Audio.Stream.{AudioStream}
use rawr.Audio.Stream.Calls.{add_device, add_output, add_input, continue_with_input, is_set}
use rawr.Audio.Stream.Calls.{start, PaHandle, PaCall, close_stream, abort_stream, too_few}

-- A direction of a stream after a device was added: it has no channels there and nothing changed, or
-- the direction was free, the device has channels enough, and is now set.
abbrev pub IsAdded : ℤ → ℤ → AudioDevice → Option AudioDevice → Option AudioDevice → Type 0
IsAdded channels wanted dev before after =
    ((int_eq channels (pos 0) ≡ true) × (after ≡ before))
    ⊎ ((before ≡ none) × (int_ltb channels wanted ≡ false) × (after ≡ some dev))

is_set-none : (before : Option AudioDevice) → is_set before ≡ false → before ≡ none
is_set-none none h = refl
is_set-none (some dev) h = ground arith

output_cases :
    (stream : AudioStream) (dev : AudioDevice)
    → (add_output stream dev ≡ (failure, stream))
      ⊎ ((after : Option AudioDevice) × (add_output stream dev
            ≡ (success, record stream { out_device = after }))
          × IsAdded (output_channels dev) stream.channel_count dev stream.out_device after)
unfolding add_output
output_cases stream dev = elim (Bool-cases (int_eq (output_channels dev) (pos 0))) [
  | inl zero_channels ↦ inr (stream.out_device, rw zero_channels refl, inl (zero_channels, refl))
  | inr channels ↦ elim (Bool-cases (is_set stream.out_device)) [
    | inl set ↦ inl (rw (channels, set) refl)
    | inr free ↦ elim (Bool-cases (int_ltb (output_channels dev) stream.channel_count)) [
      | inl few ↦ inl (rw (channels, free, few) refl)
      | inr enough ↦ inr (
        some dev,
        rw (channels, free, enough) refl,
        inr (is_set-none stream.out_device free, enough, refl),
      )
    ]
  ]
]

input_cases :
    (stream : AudioStream) (dev : AudioDevice)
    → (add_input stream dev ≡ (failure, stream))
      ⊎ ((after : Option AudioDevice) × (add_input stream dev
            ≡ (success, record stream { in_device = after }))
          × IsAdded (input_channels dev) stream.channel_count dev stream.in_device after)
unfolding add_input
input_cases stream dev = elim (Bool-cases (int_eq (input_channels dev) (pos 0))) [
  | inl zero_channels ↦ inr (stream.in_device, rw zero_channels refl, inl (zero_channels, refl))
  | inr channels ↦ elim (Bool-cases (is_set stream.in_device)) [
    | inl set ↦ inl (rw (channels, set) refl)
    | inr free ↦ elim (Bool-cases (int_ltb (input_channels dev) stream.channel_count)) [
      | inl few ↦ inl (rw (channels, free, few) refl)
      | inr enough ↦ inr (
        some dev,
        rw (channels, free, enough) refl,
        inr (is_set-none stream.in_device free, enough, refl),
      )
    ]
  ]
]

-- What `add_device` can do to a stream.
abbrev pub AddResult : AudioStream → AudioDevice → ErrorCode × AudioStream → Type 0
AddResult stream dev (success, after) =
    (record after { out_device = stream.out_device; in_device = stream.in_device } ≡ stream)
    × IsAdded (output_channels dev) stream.channel_count dev stream.out_device after.out_device
    × IsAdded (input_channels dev) stream.channel_count dev stream.in_device after.in_device
AddResult stream dev (failure, after) =
    (record after { out_device = stream.out_device } ≡ stream)
      × IsAdded (output_channels dev) stream.channel_count dev stream.out_device after.out_device
    ⊎ (after ≡ stream)

-- Adding a device either sets each direction in which the device has channels, which was free before
-- and for which it has channels enough, and changes nothing else; or it fails with the stream as it
-- was, or with only the output direction set.
add_device-AddResult :
    (stream : AudioStream) (dev : AudioDevice) → AddResult stream dev (add_device stream dev)
unfolding add_device continue_with_input
add_device-AddResult stream dev =
    elim (Bool-cases (too_few (output_channels dev) stream.channel_count)) [
      | inl few ↦ rw few (inr refl)
      | inr enough ↦ elim (Bool-cases (too_few (input_channels dev) stream.channel_count)) [
        | inl few ↦ rw (enough, few) (inr refl)
        | inr input_enough ↦ elim (output_cases stream dev) [
          | inl refused ↦ rw (enough, input_enough, refused) (inr refl)
          | inr (out, added, is_added) ↦
              elim (input_cases (record stream { out_device = out }) dev) [
                | inl refused ↦ rw (enough, input_enough, added, refused) (inl (refl, is_added))
                | inr (inp, input_added, input_is_added) ↦
                    rw (enough, input_enough, added, input_added) (refl, is_added, input_is_added)
              ]
        ]
      ]
    ]

-- A device with both directions, added to a stream whose input alone is taken, is refused and has
-- become the stream's output all the same.
add_device-sets_half :
    (stream : AudioStream) (dev other : AudioDevice)
    → int_eq (output_channels dev) (pos 0) ≡ false
    → int_eq (input_channels dev) (pos 0) ≡ false
    → int_ltb (output_channels dev) stream.channel_count ≡ false
    → int_ltb (input_channels dev) stream.channel_count ≡ false
    → stream.out_device ≡ none
    → stream.in_device ≡ some other
    → add_device stream dev ≡ (failure, record stream { out_device = some dev })
unfolding add_device continue_with_input add_output add_input
add_device-sets_half stream dev other o i eo ei free taken = ground arith

-- Whether a call is made.
abbrev pub closes : List PaCall → Bool
closes [] = false
closes (close_stream ∷ calls) = true
closes (call ∷ calls) = closes calls

abbrev pub aborts? : List PaCall → Bool
aborts? [] = false
aborts? (abort_stream ∷ calls) = true
aborts? (call ∷ calls) = aborts? calls

-- A start succeeds exactly where the stream opens and starts. One that fails has closed the stream
-- exactly where it had opened it, a start that succeeds has not, and none aborts it.
start-closes :
    (left : PaHandle) (opens starts : Bool) (stream : AudioStream)
    → (((start left opens starts stream).0 ≡ success)
          × (opens && starts ≡ true)
          × (closes (start left opens starts stream).1 ≡ false)
        ⊎ ((start left opens starts stream).0 ≡ failure)
          × (opens && starts ≡ false)
          × (closes (start left opens starts stream).1 ≡ opens))
      × (aborts? (start left opens starts stream).1 ≡ false)
unfolding start
start-closes left true true stream = (inl (refl, refl, refl), refl)
start-closes left true false stream = (inr (refl, refl, refl), refl)
start-closes left false starts stream = (inr (refl, refl, refl), refl)
