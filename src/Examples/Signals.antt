-- ===== src/Examples/Signals.antt =====
-- The chips on small payloads, with floats as hundredths.
use ozint.Base.{
  ℕ, ◌*◌, ◌/◌, ◌%◌, max, true, ◌≡◌, ◌↔◌, ◌&&◌, if◌then◌else◌, refl, none, some, [], ◌∷◌, ltb, leb,
  nat_eq,
}
use ozint.Base.Text.{decimal, to_ascii_lowercase}
use ozint.Types.{SignalTone}
use ozint.Types.Payloads.{BreachEvent, PhonePayload, CvePayload, OzPayload}
use ozint.Types.Defaults.{F64}
use ozint.Signal.{tone_rank}
use ozint.Signal.Chips.{fraud_tone, is_voip, is_prepaid, tones_of, phone_chip}
use ozint.Signal.Media.{cve_chip, is_epss_high}
use ozint.Signal.Dispatch.{chip_for}
use ozint.Signal.Tones.{max_rank}
use ozint.Signal.Floors.{phone_chip-max, cve_chip-critical_iff, chip_for-gated, is_gated_chip}

abbrev pub hundredths : F64 ℕ
hundredths = record {
  zero = 0;
  one = 100;
  ratio = λ m n. m * 100 / n;
  eq = nat_eq;
  gt = λ x y. ltb y x;
  ge = λ x y. leb y x;
  mul = λ x y. x * y / 100;
  div = λ x y. x * 100 / y;
  rem = λ x y. x % y;
  fixed = λ d x. decimal x;
  floor_u64 = λ x. x / 100;
  round_u64 = λ x. x / 100;
}

abbrev leak : BreachEvent
leak = record {
  name = "leak";
  breached_at = none;
  added_at = none;
  data_classes = [];
  tone = SignalTone.gated;
  source_tool_id = "hibp";
}

abbrev burner : PhonePayload
burner = record {
  valid = some true;
  country = none;
  carrier = none;
  line_type = some "VoIP, prepaid";
  fraud_score = some 30;
  subscriber_name = none;
  breaches = [];
}

phone_chip-max_example :
    tone_rank (phone_chip hundredths to_ascii_lowercase burner).tone
    ≡ max (tone_rank (fraud_tone burner.fraud_score)) (
        max (if is_voip hundredths to_ascii_lowercase burner then 2 else 0) (
          max
            (if is_voip hundredths to_ascii_lowercase burner
                && is_prepaid hundredths to_ascii_lowercase burner
              then 3
              else 0)
            (max_rank (tones_of burner.breaches))))
phone_chip-max_example = phone_chip-max hundredths to_ascii_lowercase burner refl

burner_text : (phone_chip hundredths to_ascii_lowercase burner).text ≡ "VoIP, prepaid · risk"
unfolding phone_chip to_ascii_lowercase tone_rank
burner_text = refl

abbrev exploited : CvePayload ℕ
exploited = record {
  cvss = some 430;
  cvss_version = none;
  severity = none;
  epss = some 93;
  kev = true;
  published_at = none;
  summary = none;
  configurations = [];
  weaknesses = [];
  poc_urls = [];
}

cve_chip-critical_iff_example :
    ((cve_chip hundredths exploited).tone ≡ SignalTone.critical)
    ↔ ((is_epss_high hundredths exploited ≡ true) × (exploited.kev ≡ true))
cve_chip-critical_iff_example = cve_chip-critical_iff hundredths to_ascii_lowercase exploited

abbrev leaked_phone : OzPayload ℕ
leaked_phone = OzPayload.phone (record {
  valid = none;
  country = none;
  carrier = none;
  line_type = none;
  fraud_score = none;
  subscriber_name = none;
  breaches = leak ∷ [];
})

chip_for-gated_example :
    is_gated_chip hundredths to_ascii_lowercase
      (chip_for hundredths to_ascii_lowercase leaked_phone)
    ≡ true
chip_for-gated_example = chip_for-gated hundredths to_ascii_lowercase leaked_phone
