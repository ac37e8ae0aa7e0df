-- ===== src/Signal/Dispatch.antt =====
-- `signal_for` of crates/ozint/src/signal.rs: the chip of a payload, none while it is its default.
use ozint.Base.{String, Bool, if◌then◌else◌, Option, none, some}
use ozint.Types.Payloads.{OzPayload}
use ozint.Types.Defaults.{
  F64, username_is_default, email_is_default, phone_is_default, ip_is_default, domain_is_default,
  hash_is_default, image_is_default, video_is_default, coordinate_is_default, cve_is_default,
  directory_is_default,
}
use ozint.Signal.{SignalChip, SignalMode, chip_of, tier_word}
use ozint.Signal.Chips.{username_chip, email_chip, phone_chip, ip_chip, domain_chip, hash_chip}
use ozint.Signal.Media.{image_chip, video_chip, coordinate_chip, cve_chip, directory_chip}

module _ {F : Type 0} (floats : F64 F) (to_lowercase : String → String) where
  -- Whether a payload is its type's default, and the chip where it is not.
  unfoldable pub is_default : OzPayload F → Bool
  is_default (OzPayload.username p) = username_is_default p
  is_default (OzPayload.email p) = email_is_default p
  is_default (OzPayload.phone p) = phone_is_default p
  is_default (OzPayload.ip p) = ip_is_default F floats p
  is_default (OzPayload.domain p) = domain_is_default p
  is_default (OzPayload.hash p) = hash_is_default F floats p
  is_default (OzPayload.image p) = image_is_default F floats p
  is_default (OzPayload.video p) = video_is_default F floats p
  is_default (OzPayload.coordinate p) = coordinate_is_default F floats p
  is_default (OzPayload.cve p) = cve_is_default F floats p
  is_default (OzPayload.directory p) = directory_is_default p
  is_default (OzPayload.name p) = directory_is_default p

  unfoldable pub chip_for : OzPayload F → SignalChip F
  chip_for (OzPayload.username p) = username_chip floats to_lowercase p
  chip_for (OzPayload.email p) = email_chip floats to_lowercase p
  chip_for (OzPayload.phone p) = phone_chip floats to_lowercase p
  chip_for (OzPayload.ip p) = ip_chip floats to_lowercase p
  chip_for (OzPayload.domain p) = domain_chip floats to_lowercase p
  chip_for (OzPayload.hash p) = hash_chip floats to_lowercase p
  chip_for (OzPayload.image p) = image_chip floats p
  chip_for (OzPayload.video p) = video_chip floats p
  chip_for (OzPayload.coordinate p) = coordinate_chip floats p
  chip_for (OzPayload.cve p) = cve_chip floats p
  chip_for (OzPayload.directory p) = directory_chip p
  chip_for (OzPayload.name p) = directory_chip p

  unfoldable pub native_signal : OzPayload F → Option (SignalChip F)
  unfolding is_default chip_for
  native_signal payload = if is_default payload then none else some (chip_for payload)

  in_mode : SignalMode → SignalChip F → SignalChip F
  unfolding chip_of tier_word
  in_mode SignalMode.native chip = chip
  in_mode SignalMode.tier chip = chip_of (tier_word chip.tone) chip.tone

  unfoldable pub signal_for : OzPayload F → SignalMode → Option (SignalChip F)
  unfolding native_signal in_mode
  signal_for payload mode = elim (native_signal payload) [
    | none ↦ none
    | some chip ↦ some (in_mode mode chip)
  ]
