-- ===== src/Signal/Media.antt =====
-- The chips of images, videos, coordinates, vulnerabilities and launch tiles (the rest of the
-- `*_chip` functions of crates/ozint/src/signal.rs).
use ozint.Base.{
  ℕ, String, Bool, true, false, ◌&&◌, ◌||◌, not, if◌then◌else◌, ltb, concat, Option, none, some,
  is_some, unwrap_or, [], ◌∷◌, length,
}
use ozint.Base.Text.{decimal}
use ozint.Types.{SignalTone}
use ozint.Types.Payloads.{
  DirectoryPayload, ImagePayload, VideoPayload, CoordinatePayload, CvePayload,
}
use ozint.Types.Defaults.{F64, is_nil}
use ozint.Signal.{SignalChip, escalate, raise_if, chip_of, with_meta, with_ratio}

-- `{secs:02}`.
two_digits : ℕ → String
two_digits n = if ltb n 10 then concat ("0" ∷ decimal n ∷ []) else decimal n

module _ {F : Type 0} (floats : F64 F) where
  unfoldable pub image_chip : ImagePayload F → SignalChip F
  unfolding chip_of with_meta
  image_chip p =
      let located : SignalChip F =
        chip_of
          (elim p.accuracy_m [
            | none ↦ "GPS present"
            | some accuracy ↦ concat ("±" ∷ floats.fixed 0 accuracy ∷ " m" ∷ [])
          ])
          SignalTone.neutral in
      if is_some p.lat || is_some p.lon
      then with_meta "from EXIF" located
      else if not (is_nil p.exif)
      then chip_of (concat (decimal (length p.exif) ∷ " EXIF fields" ∷ [])) SignalTone.neutral
      else if not (is_nil p.reverse_matches)
      then chip_of (concat (decimal (length p.reverse_matches) ∷ " reverse matches" ∷ []))
          SignalTone.neutral
      else chip_of "no EXIF data" SignalTone.neutral

  video_text : VideoPayload F → F → String
  unfolding two_digits
  video_text p duration =
      let sixty : F = floats.ratio 60 1 in
      concat (
        decimal (floats.floor_u64 (floats.div duration sixty))
        ∷ ":"
        ∷ two_digits (floats.round_u64 (floats.rem duration sixty))
        ∷ " · "
        ∷ decimal (length p.keyframe_media_ids)
        ∷ " keyframes"
        ∷ [])

  unfoldable pub video_chip : VideoPayload F → SignalChip F
  unfolding chip_of video_text
  video_chip p = elim p.duration_s [
    | some duration ↦ chip_of (video_text p duration) SignalTone.neutral
    | none ↦
        if not (is_nil p.metadata)
        then chip_of (concat (decimal (length p.metadata) ∷ " metadata fields" ∷ []))
            SignalTone.neutral
        else chip_of "no video metadata" SignalTone.neutral
  ]

  unfoldable pub coordinate_chip : CoordinatePayload F → SignalChip F
  unfolding chip_of with_meta
  coordinate_chip p =
      let chip : SignalChip F =
        chip_of
          (unwrap_or (concat (floats.fixed 5 p.lat ∷ ", " ∷ floats.fixed 5 p.lon ∷ [])) p.place)
          SignalTone.neutral in
      elim p.country [ none ↦ chip | some country ↦ with_meta country chip ]

  -- `EPSS_CRITICAL_AT` is 0.7.
  unfoldable pub is_epss_high : CvePayload F → Bool
  is_epss_high p = elim p.epss [ none ↦ false | some e ↦ floats.gt e (floats.ratio 7 10) ]

  unfoldable pub cvss_tone : Option F → SignalTone
  cvss_tone none = SignalTone.neutral
  cvss_tone (some c) =
      if floats.ge c (floats.ratio 7 1)
      then SignalTone.risk
      else if floats.ge c (floats.ratio 4 1)
      then SignalTone.warn
      else if floats.gt c floats.zero
      then SignalTone.ok
      else SignalTone.neutral

  unfoldable pub cve_tone : CvePayload F → SignalTone
  unfolding is_epss_high cvss_tone escalate
  cve_tone p =
      let scored : SignalTone = cvss_tone p.cvss in
      let listed : SignalTone = raise_if p.kev scored SignalTone.risk in
      let likely : SignalTone = raise_if (is_epss_high p) listed SignalTone.risk in
      raise_if (is_epss_high p && p.kev) likely SignalTone.critical

  percent : F → String
  percent e = concat ("EPSS " ∷ floats.fixed 0 (floats.mul e (floats.ratio 100 1)) ∷ "%" ∷ [])

  cve_text : Option F → Bool → Option F → String
  unfolding percent
  cve_text (some c) true epss = concat (floats.fixed 1 c ∷ " · exploited ITW" ∷ [])
  cve_text (some c) false (some e) = concat (floats.fixed 1 c ∷ " · " ∷ percent e ∷ [])
  cve_text (some c) false none = floats.fixed 1 c
  cve_text none true epss = "exploited ITW"
  cve_text none false (some e) = percent e
  cve_text none false none = "no CVSS score"

  unfoldable pub cve_chip : CvePayload F → SignalChip F
  unfolding chip_of with_ratio cve_tone cve_text
  cve_chip p =
      let chip : SignalChip F = chip_of (cve_text p.cvss p.kev p.epss) (cve_tone p) in
      elim p.cvss [
        | none ↦ chip
        | some c ↦ with_ratio floats (floats.div c (floats.ratio 10 1)) chip
      ]

module _ {F : Type 0} where
  unfoldable pub directory_chip : DirectoryPayload → SignalChip F
  unfolding chip_of
  directory_chip p =
      chip_of (concat (decimal (length p.tiles) ∷ " tools · no native search" ∷ []))
        SignalTone.neutral
