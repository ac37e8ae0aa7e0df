-- ===== src/Signal/Chips.antt =====
-- The chip of each payload (the `*_chip` functions of crates/ozint/src/signal.rs). `to_lowercase`
-- is Unicode's.
use text.Mathlib.Text.{find?}
use ozint.Base.{
  ℕ, String, Bool, true, false, ◌*◌, ◌-◌, ◌^◌, min, ◌&&◌, not, if◌then◌else◌, leb, ltb, nat_eq,
  ◌==◌, string_eq, concat, Option, none, some, is_some, unwrap_or, List, [], ◌∷◌, map, length,
}
use ozint.Base.Text.{decimal}
use ozint.Types.{SignalTone}
use ozint.Types.Payloads.{
  BreachEvent, UsernamePayload, EmailPayload, PhonePayload, DomainPayload, IpPayload, HashPayload,
}
use ozint.Types.Defaults.{F64, is_nil}
use ozint.Signal.{SignalChip, escalate, raise_if, worst_tone, chip_of, with_ratio}

abbrev pub tones_of : List BreachEvent → List SignalTone
tones_of breaches = map (λ (b : BreachEvent). b.tone) breaches

contains : String → String → Bool
contains s t = is_some (find? s t)

-- `Option<bool> == Some(b)`.
abbrev pub is_some_true : Option Bool → Bool
is_some_true (some true) = true
is_some_true _ = false

abbrev pub is_some_false : Option Bool → Bool
is_some_false (some false) = true
is_some_false _ = false

-- The bands of the two scores out of a hundred: `PHONE_FRAUD_*` and `ABUSE_*` are 25 and 75.
unfoldable pub abuse_tone : ℕ → SignalTone
abuse_tone score =
    if leb 75 score
    then SignalTone.risk
    else if leb 25 score
    then SignalTone.warn
    else SignalTone.ok

unfoldable pub fraud_tone : Option ℕ → SignalTone
unfolding abuse_tone
fraud_tone none = SignalTone.neutral
fraud_tone (some score) = escalate SignalTone.neutral (abuse_tone score)

unfoldable pub score_tone : Option ℕ → SignalTone
score_tone none = SignalTone.neutral
score_tone (some score) = abuse_tone score

abbrev pub is_malicious : Option String → Bool
is_malicious none = false
is_malicious (some classification) = classification == "malicious"

unfoldable pub phone_descriptor : SignalTone → String
phone_descriptor SignalTone.critical = "critical"
phone_descriptor SignalTone.risk = "risk"
phone_descriptor SignalTone.warn = "elevated"
phone_descriptor SignalTone.ok = "clear"
phone_descriptor SignalTone.neutral = "unclassified"
phone_descriptor SignalTone.gated = "unclassified"

-- `VT_MEANINGFUL_DETECTIONS` is 3, and `saturating_mul` stops at the largest `u32`.
unfoldable pub saturating_double : ℕ → ℕ
saturating_double n = min (n * 2) (2 ^ 32 - 1)

unfoldable pub hash_tone : ℕ → ℕ → SignalTone
unfolding saturating_double
hash_tone detections total =
    if nat_eq detections 0
    then SignalTone.ok
    else if ltb detections 3
    then SignalTone.warn
    else if leb total (saturating_double detections)
    then SignalTone.critical
    else SignalTone.risk

module _ {F : Type 0} (floats : F64 F) (to_lowercase : String → String) where
  unfoldable pub username_chip : UsernamePayload → SignalChip F
  unfolding chip_of with_ratio
  username_chip p =
      let chip : SignalChip F =
        chip_of
          (concat (decimal p.sites_confirmed ∷ " / " ∷ decimal p.sites_checked ∷ " sites" ∷ []))
          SignalTone.neutral in
      if ltb 0 p.sites_checked
      then with_ratio floats (floats.ratio p.sites_confirmed p.sites_checked) chip
      else chip

  unfoldable pub email_chip : EmailPayload → SignalChip F
  unfolding chip_of worst_tone
  email_chip p =
      let n : ℕ = length p.breaches in
      if is_nil p.breaches
      then chip_of "no breaches" SignalTone.ok
      else chip_of (concat (decimal n ∷ " " ∷ (if nat_eq n 1 then "breach" else "breaches") ∷ []))
          (worst_tone (tones_of p.breaches))

  unfoldable pub is_voip : PhonePayload → Bool
  unfolding contains
  is_voip p = contains (to_lowercase (unwrap_or "" p.line_type)) "voip"

  unfoldable pub is_prepaid : PhonePayload → Bool
  unfolding contains
  is_prepaid p = contains (to_lowercase (unwrap_or "" p.line_type)) "prepaid"

  unfoldable pub phone_tone : PhonePayload → SignalTone
  unfolding fraud_tone escalate is_voip is_prepaid worst_tone
  phone_tone p =
      let scored : SignalTone = fraud_tone p.fraud_score in
      let raised : SignalTone = raise_if (is_voip p) scored SignalTone.warn in
      let floored : SignalTone = raise_if (is_voip p && is_prepaid p) raised SignalTone.risk in
      raise_if (not (is_nil p.breaches)) floored (worst_tone (tones_of p.breaches))

  unfoldable pub phone_chip : PhonePayload → SignalChip F
  unfolding chip_of phone_tone phone_descriptor
  phone_chip p =
      if is_some_false p.valid
      then chip_of "invalid number" SignalTone.warn
      else chip_of
          (concat (unwrap_or "phone" p.line_type ∷ " · " ∷ phone_descriptor (phone_tone p) ∷ []))
          (phone_tone p)

  unfoldable pub ip_tone : IpPayload F → SignalTone
  unfolding score_tone escalate
  ip_tone p =
      let scored : SignalTone = score_tone p.abuse_score in
      let classified : SignalTone =
        raise_if (is_malicious p.classification) scored SignalTone.risk in
      raise_if (is_some_true p.anonymizer) classified SignalTone.warn

  unfoldable pub ip_text : IpPayload F → String
  ip_text p = elim p.abuse_score [
    | none ↦ unwrap_or "no reputation data" p.classification
    | some score ↦ concat ("abuse " ∷ decimal score ∷ " / 100" ∷ [])
  ]

  unfoldable pub ip_chip : IpPayload F → SignalChip F
  unfolding chip_of with_ratio ip_tone ip_text
  ip_chip p =
      let chip : SignalChip F = chip_of (ip_text p) (ip_tone p) in
      elim p.abuse_score [
        | none ↦ chip
        | some score ↦ with_ratio floats (floats.ratio score 100) chip
      ]

  unfoldable pub domain_chip : DomainPayload → SignalChip F
  unfolding chip_of
  domain_chip p =
      chip_of
        (concat (
          decimal (length p.subdomains)
          ∷ (if p.subdomains_truncated then "+" else "")
          ∷ " subdomains"
          ∷ []))
        SignalTone.neutral

  unfoldable pub hash_fallback : HashPayload F → SignalChip F
  unfolding chip_of
  hash_fallback p =
      chip_of (unwrap_or (unwrap_or "no AV data" p.file_type) p.family) SignalTone.neutral

  unfoldable pub hash_chip : HashPayload F → SignalChip F
  unfolding chip_of with_ratio hash_tone hash_fallback
  hash_chip p = elim p.detections [
    | none ↦ hash_fallback p
    | some detections ↦ elim p.engines_total [
      | none ↦ hash_fallback p
      | some total ↦
          if ltb 0 total
          then with_ratio floats (floats.ratio detections total) (
              chip_of (concat (decimal detections ∷ " / " ∷ decimal total ∷ " engines" ∷ []))
                (hash_tone detections total))
          else hash_fallback p
    ]
  ]
