-- ===== src/Signal/Tones.antt =====
-- The order of the tones (`tone_rank`, `escalate` and `worst_tone` of crates/ozint/src/signal.rs).
use ozint.Base.{
  ℕ, Bool, true, false, ◌≡◌, ◌∙◌, max, List, [], ◌∷◌, arith, if◌then◌else◌, any, ◌||◌, ◌&&◌,
}
use ozint.Types.{SignalTone}
use ozint.Signal.{tone_rank, escalate, raise_if, fold_tones, worst_tone}

-- The highest rank of a list of tones, zero for none.
abbrev pub max_rank : List SignalTone → ℕ
max_rank [] = 0
max_rank (t ∷ ts) = max (tone_rank t) (max_rank ts)

pub tone_rank-escalate :
    (a b : SignalTone) → tone_rank (escalate a b) ≡ max (tone_rank a) (tone_rank b)
unfolding escalate
tone_rank-escalate a b = ground arith

tone_rank-fold_tones :
    (acc : SignalTone) (ts : List SignalTone)
    → tone_rank (fold_tones acc ts) ≡ max (tone_rank acc) (max_rank ts)
unfolding fold_tones
tone_rank-fold_tones acc [] = omega arith
tone_rank-fold_tones acc (t ∷ ts) =
    omega (arith, tone_rank-fold_tones (escalate acc t) ts, tone_rank-escalate acc t)

pub tone_rank-worst_tone : (ts : List SignalTone) → tone_rank (worst_tone ts) ≡ max_rank ts
unfolding worst_tone tone_rank
tone_rank-worst_tone ts = tone_rank-fold_tones SignalTone.neutral ts ∙ omega arith

abbrev pub is_gated_tone : SignalTone → Bool
is_gated_tone SignalTone.gated = true
is_gated_tone _ = false

pub is_gated-escalate :
    (a b : SignalTone) → is_gated_tone (escalate a b) ≡ (is_gated_tone a || is_gated_tone b)
unfolding escalate tone_rank
is_gated-escalate a b = ground arith

is_gated-fold_tones :
    (acc : SignalTone) (ts : List SignalTone)
    → is_gated_tone (fold_tones acc ts) ≡ (is_gated_tone acc || any is_gated_tone ts)
unfolding fold_tones
is_gated-fold_tones acc [] = ground arith
is_gated-fold_tones acc (t ∷ ts) =
    ground (arith, is_gated-fold_tones (escalate acc t) ts, is_gated-escalate acc t)

pub is_gated-worst_tone :
    (ts : List SignalTone) → is_gated_tone (worst_tone ts) ≡ any is_gated_tone ts
unfolding worst_tone
is_gated-worst_tone ts = is_gated-fold_tones SignalTone.neutral ts

pub tone_rank-raise_if :
    (c : Bool) (a b : SignalTone)
    → tone_rank (raise_if c a b) ≡ max (tone_rank a) (if c then tone_rank b else 0)
tone_rank-raise_if true a b = tone_rank-escalate a b
tone_rank-raise_if false a b = omega arith

pub is_gated-raise_if :
    (c : Bool) (a b : SignalTone)
    → is_gated_tone (raise_if c a b) ≡ (is_gated_tone a || (c && is_gated_tone b))
is_gated-raise_if true a b = is_gated-escalate a b
is_gated-raise_if false a b = ground arith
