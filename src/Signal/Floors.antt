-- ===== src/Signal/Floors.antt =====
-- What decides the tone of a chip (`phone_chip`, `cve_chip` and `native_signal` of
-- crates/ozint/src/signal.rs).
use ozint.Base.{
  ℕ, String, Bool, true, false, ◌≡◌, refl, ◌∙◌, ◌↔◌, inl, inr, max, ◌&&◌, not, leb, ltb, nat_eq,
  if◌then◌else◌, List, [], ◌∷◌, Option, none, some, arith, Option-cases, any, option-keeps,
  if-keeps, if-cases, sym,
}
use ozint.Types.{SignalTone}
use ozint.Types.Payloads.{
  BreachEvent, OzPayload, PhonePayload, EmailPayload, CvePayload, IpPayload, HashPayload,
  ImagePayload, VideoPayload, CoordinatePayload, UsernamePayload,
}
use ozint.Types.Defaults.{F64, is_nil}
use ozint.Signal.{
  SignalChip, tone_rank, escalate, raise_if, worst_tone, chip_of, with_ratio, with_meta,
}
use ozint.Signal.Chips.{
  username_chip, email_chip, ip_chip, ip_tone, abuse_tone, score_tone, is_some_true, is_malicious,
  saturating_double, hash_chip, hash_tone, hash_fallback, domain_chip, phone_chip, phone_tone,
  fraud_tone, is_voip, is_prepaid, tones_of, is_some_false,
}
use ozint.Signal.Media.{
  image_chip, video_chip, coordinate_chip, directory_chip, cve_chip, cve_tone, cvss_tone,
  is_epss_high,
}
use ozint.Signal.Dispatch.{chip_for}
use ozint.Signal.Tones.{
  max_rank, tone_rank-raise_if, is_gated-raise_if, tone_rank-worst_tone, is_gated_tone,
  is_gated-escalate, is_gated-worst_tone,
}

abuse_tone-gated : (score : ℕ) → is_gated_tone (abuse_tone score) ≡ false
unfolding abuse_tone
abuse_tone-gated score =
    if-keeps (λ t. is_gated_tone t ≡ false) (leb 75 score) refl
      (if-keeps (λ t. is_gated_tone t ≡ false) (leb 25 score) refl refl)

score_tone-gated : (score : Option ℕ) → is_gated_tone (score_tone score) ≡ false
unfolding score_tone
score_tone-gated none = refl
score_tone-gated (some n) = abuse_tone-gated n

fraud_tone-gated : (score : Option ℕ) → is_gated_tone (fraud_tone score) ≡ false
unfolding fraud_tone
fraud_tone-gated none = refl
fraud_tone-gated (some n) = is_gated-escalate SignalTone.neutral (abuse_tone n) ∙ abuse_tone-gated n

hash_tone-gated : (detections total : ℕ) → is_gated_tone (hash_tone detections total) ≡ false
unfolding hash_tone
hash_tone-gated detections total =
    if-keeps (λ t. is_gated_tone t ≡ false) (nat_eq detections 0) refl
      (if-keeps (λ t. is_gated_tone t ≡ false) (ltb detections 3) refl
        (if-keeps (λ t. is_gated_tone t ≡ false) (leb total (saturating_double detections)) refl
          refl))

module _ {F : Type 0} (floats : F64 F) (to_lowercase : String → String) where
  max_rank-not_nil :
      (ts : List BreachEvent)
      → (if not (is_nil ts) then tone_rank (worst_tone (tones_of ts)) else 0)
        ≡ max_rank (tones_of ts)
  max_rank-not_nil [] = refl
  max_rank-not_nil (b ∷ bs) = tone_rank-worst_tone (tones_of (b ∷ bs))

  tone_rank-phone_tone :
      (p : PhonePayload)
      → tone_rank (phone_tone floats to_lowercase p)
        ≡ max (tone_rank (fraud_tone p.fraud_score)) (
            max (if is_voip floats to_lowercase p then 2 else 0) (
              max
                (if is_voip floats to_lowercase p && is_prepaid floats to_lowercase p then 3 else 0)
                (max_rank (tones_of p.breaches))))
  unfolding phone_tone tone_rank
  tone_rank-phone_tone p =
      let voip : Bool = is_voip floats to_lowercase p in
      let both : Bool = voip && is_prepaid floats to_lowercase p in
      let scored : SignalTone = fraud_tone p.fraud_score in
      let raised : SignalTone = raise_if voip scored SignalTone.warn in
      let floored : SignalTone = raise_if both raised SignalTone.risk in
      omega (
        arith,
        tone_rank-raise_if voip scored SignalTone.warn,
        tone_rank-raise_if both raised SignalTone.risk,
        tone_rank-raise_if (not (is_nil p.breaches)) floored (worst_tone (tones_of p.breaches)),
        max_rank-not_nil p.breaches,
      )

  -- The rank of a phone number's tone, where the number is not known to be invalid, is the highest
  -- of its fraud band, of warn for VoIP, of risk for VoIP that is also prepaid, and of its breaches.
  pub phone_chip-max :
      (p : PhonePayload)
      → is_some_false p.valid ≡ false
      → tone_rank (phone_chip floats to_lowercase p).tone
        ≡ max (tone_rank (fraud_tone p.fraud_score)) (
            max (if is_voip floats to_lowercase p then 2 else 0) (
              max
                (if is_voip floats to_lowercase p && is_prepaid floats to_lowercase p then 3 else 0)
                (max_rank (tones_of p.breaches))))
  unfolding phone_chip phone_tone chip_of
  phone_chip-max p h = rw h (tone_rank-phone_tone p)

  -- A vulnerability reads critical exactly when its EPSS score is above 0.7 and it is in the KEV
  -- catalogue, whatever its CVSS score.
  pub cve_chip-critical_iff :
      (p : CvePayload F)
      → ((cve_chip floats p).tone ≡ SignalTone.critical)
        ↔ ((is_epss_high floats p ≡ true) × (p.kev ≡ true))
  unfolding cve_chip cve_tone cvss_tone escalate tone_rank chip_of with_ratio
  cve_chip-critical_iff p = elim (Option-cases p.cvss) [
    | inl e ↦ rw e (ground arith)
    | inr (c, e) ↦ rw e (ground arith)
  ]

  abbrev pub has_gated_breach : OzPayload F → Bool
  has_gated_breach (OzPayload.email p) = any is_gated_tone (tones_of p.breaches)
  has_gated_breach (OzPayload.phone p) =
      not (is_some_false p.valid) && any is_gated_tone (tones_of p.breaches)
  has_gated_breach _ = false

  abbrev pub is_gated_chip : SignalChip F → Bool
  is_gated_chip chip = is_gated_tone chip.tone

  any-nil : (bs : List BreachEvent) → is_nil bs ≡ true → any is_gated_tone (tones_of bs) ≡ false
  any-nil [] h = refl
  any-nil (b ∷ bs) h = absurd (cc h)

  email_chip-gated :
      (p : EmailPayload)
      → is_gated_chip (email_chip floats to_lowercase p) ≡ any is_gated_tone (tones_of p.breaches)
  unfolding email_chip chip_of
  email_chip-gated p =
      if-cases (λ chip. is_gated_chip chip ≡ any is_gated_tone (tones_of p.breaches))
        (is_nil p.breaches) (λ e. sym (any-nil p.breaches e))
        (λ e. is_gated-worst_tone (tones_of p.breaches))

  phone_tone-gated :
      (p : PhonePayload)
      → is_gated_tone (phone_tone floats to_lowercase p) ≡ any is_gated_tone (tones_of p.breaches)
  unfolding phone_tone
  phone_tone-gated p =
      let voip : Bool = is_voip floats to_lowercase p in
      let both : Bool = voip && is_prepaid floats to_lowercase p in
      let scored : SignalTone = fraud_tone p.fraud_score in
      let raised : SignalTone = raise_if voip scored SignalTone.warn in
      let floored : SignalTone = raise_if both raised SignalTone.risk in
      ground (
        arith,
        fraud_tone-gated p.fraud_score,
        is_gated-raise_if voip scored SignalTone.warn,
        is_gated-raise_if both raised SignalTone.risk,
        is_gated-raise_if (not (is_nil p.breaches)) floored (worst_tone (tones_of p.breaches)),
        is_gated-worst_tone (tones_of p.breaches),
        any-nil p.breaches,
      )

  phone_chip-gated :
      (p : PhonePayload)
      → is_gated_chip (phone_chip floats to_lowercase p)
        ≡ (not (is_some_false p.valid) && any is_gated_tone (tones_of p.breaches))
  unfolding phone_chip chip_of
  phone_chip-gated p =
      if-cases
        (λ chip.
          is_gated_chip chip
          ≡ (not (is_some_false p.valid) && any is_gated_tone (tones_of p.breaches)))
        (is_some_false p.valid) (λ e. rw e refl) (λ e. rw e (phone_tone-gated p))

  ip_tone-gated : (p : IpPayload F) → is_gated_tone (ip_tone floats to_lowercase p) ≡ false
  unfolding ip_tone
  ip_tone-gated p = ground (
    arith,
    score_tone-gated p.abuse_score,
    is_gated-raise_if (is_malicious p.classification) (score_tone p.abuse_score) SignalTone.risk,
    is_gated-raise_if (is_some_true p.anonymizer)
        (raise_if (is_malicious p.classification) (score_tone p.abuse_score) SignalTone.risk)
        SignalTone.warn,
  )

  ip_chip-gated : (p : IpPayload F) → is_gated_chip (ip_chip floats to_lowercase p) ≡ false
  unfolding ip_chip chip_of with_ratio
  ip_chip-gated p =
      option-keeps (λ chip. is_gated_chip chip ≡ false) p.abuse_score (ip_tone-gated p)
        (λ n. ip_tone-gated p)

  hash_chip-gated : (p : HashPayload F) → is_gated_chip (hash_chip floats to_lowercase p) ≡ false
  unfolding hash_chip chip_of with_ratio hash_fallback
  hash_chip-gated p =
      let P : SignalChip F → Type 0 = λ chip. is_gated_chip chip ≡ false in
      option-keeps P p.detections refl (λ n.
        option-keeps P p.engines_total refl (λ m. if-keeps P (ltb 0 m) (hash_tone-gated n m) refl))

  cve_chip-gated : (p : CvePayload F) → is_gated_chip (cve_chip floats p) ≡ false
  unfolding cve_chip cve_tone cvss_tone escalate tone_rank chip_of with_ratio
  cve_chip-gated p = elim (Option-cases p.cvss) [
    | inl e ↦ rw e (ground arith)
    | inr (c, e) ↦ rw e (ground arith)
  ]

  image_chip-gated : (p : ImagePayload F) → is_gated_chip (image_chip floats p) ≡ false
  unfolding image_chip chip_of with_meta
  image_chip-gated p = ground arith

  video_chip-gated : (p : VideoPayload F) → is_gated_chip (video_chip floats p) ≡ false
  unfolding video_chip chip_of
  video_chip-gated p = ground arith

  coordinate_chip-gated :
      (p : CoordinatePayload F) → is_gated_chip (coordinate_chip floats p) ≡ false
  unfolding coordinate_chip chip_of with_meta
  coordinate_chip-gated p = ground arith

  username_chip-gated :
      (p : UsernamePayload) → is_gated_chip (username_chip floats to_lowercase p) ≡ false
  unfolding username_chip chip_of with_ratio
  username_chip-gated p = ground arith

  -- A chip reads gated exactly where a breach that it aggregates carries the gated tone: of an email
  -- address, and of a phone number that is not known to be invalid.
  pub chip_for-gated :
      (payload : OzPayload F)
      → is_gated_chip (chip_for floats to_lowercase payload) ≡ has_gated_breach payload
  unfolding chip_for domain_chip directory_chip chip_of
  chip_for-gated (OzPayload.username p) = username_chip-gated p
  chip_for-gated (OzPayload.email p) = email_chip-gated p
  chip_for-gated (OzPayload.phone p) = phone_chip-gated p
  chip_for-gated (OzPayload.ip p) = ip_chip-gated p
  chip_for-gated (OzPayload.domain p) = refl
  chip_for-gated (OzPayload.hash p) = hash_chip-gated p
  chip_for-gated (OzPayload.image p) = image_chip-gated p
  chip_for-gated (OzPayload.video p) = video_chip-gated p
  chip_for-gated (OzPayload.coordinate p) = coordinate_chip-gated p
  chip_for-gated (OzPayload.cve p) = cve_chip-gated p
  chip_for-gated (OzPayload.directory p) = refl
  chip_for-gated (OzPayload.name p) = refl
