-- ===== src/Signal.antt =====
-- crates/ozint/src/signal.rs: the chip that a node shows. This file has the chip itself, the order
-- of the tones and the words of a tier; the children have each type's chip and the dispatch.
pub mod Chips
pub mod Media
pub mod Dispatch
pub mod Tones
pub mod Floors
use ozint.Base.{ℕ, String, Bool, if◌then◌else◌, ltb, Option, none, some, List, [], ◌∷◌}
use ozint.Types.{SignalTone}
use ozint.Types.Defaults.{F64}

unfoldable pub tone_rank : SignalTone → ℕ
tone_rank SignalTone.neutral = 0
tone_rank SignalTone.ok = 1
tone_rank SignalTone.warn = 2
tone_rank SignalTone.risk = 3
tone_rank SignalTone.critical = 4
tone_rank SignalTone.gated = 5

unfoldable pub escalate : SignalTone → SignalTone → SignalTone
escalate a b = if ltb (tone_rank a) (tone_rank b) then b else a

-- `if c { tone = escalate(tone, b) }`.
abbrev pub raise_if : Bool → SignalTone → SignalTone → SignalTone
raise_if c tone b = if c then escalate tone b else tone

unfoldable pub fold_tones : SignalTone → List SignalTone → SignalTone
fold_tones acc [] = acc
fold_tones acc (t ∷ ts) = fold_tones (escalate acc t) ts

unfoldable pub worst_tone : List SignalTone → SignalTone
worst_tone ts = fold_tones SignalTone.neutral ts

unfoldable pub tier_word : SignalTone → String
tier_word SignalTone.neutral = "N/A"
tier_word SignalTone.ok = "CLEAR"
tier_word SignalTone.warn = "ELEVATED"
tier_word SignalTone.risk = "RISK"
tier_word SignalTone.critical = "CRITICAL"
tier_word SignalTone.gated = "GATED"

pub data SignalMode : Type 0 where
  native tier : SignalMode

pub record SignalChip (F : Type 0) : Type 0 where
  pub text : String
  pub tone : SignalTone
  pub meta : Option String
  pub ratio : Option F

module _ {F : Type 0} where
  -- `SignalChip::new`, `with_meta` and `with_ratio`.
  unfoldable pub chip_of : String → SignalTone → SignalChip F
  chip_of text tone = record { text = text; tone = tone; meta = none; ratio = none }

  unfoldable pub with_meta : String → SignalChip F → SignalChip F
  with_meta meta chip = record chip { meta = some meta }

  unfoldable pub with_ratio : F64 F → F → SignalChip F → SignalChip F
  with_ratio floats ratio chip = record chip {
    ratio = some (
        if floats.gt floats.zero ratio
        then floats.zero
        else if floats.gt ratio floats.one
        then floats.one
        else ratio);
  }

  unfoldable pub apply_gated : SignalChip F → SignalChip F
  apply_gated chip = record chip { tone = SignalTone.gated }
