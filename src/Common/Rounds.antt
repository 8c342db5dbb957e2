-- ===== src/Common/Rounds.antt =====
-- A loop on a text, whose every round goes on with a shorter one: the length of the text is fuel enough.
use oxidarr.Common.{ℕ, zero, suc, ◌<◌, ◌≡◌, sym, ◌∙◌, length, arith, Text}

-- `round rec s` is one round on `s`, where `rec` are the further rounds.
module _ {R : Type 0} (stop : R) (round : (Text → R) → Text → R) where
  unfoldable rounds : ℕ → Text → R
  rounds zero s = stop
  rounds (suc fuel) s = round (rounds fuel) s

  unfoldable pub loop : Text → R
  unfolding rounds
  loop s = rounds (suc (length s)) s

  -- A round calls the further ones on shorter texts.
  abbrev pub Shortens : Type 0
  Shortens =
      (f g : Text → R) (s : Text)
      → ((t : Text) → length t < length s → f t ≡ g t)
      → round f s ≡ round g s

  module _ (shortens : Shortens) where
    rounds-fuel : (m n : ℕ) (s : Text) → length s < m → length s < n → rounds m s ≡ rounds n s
    unfolding rounds
    rounds-fuel zero n s h k = absurd (omega (arith, h))
    rounds-fuel (suc m) zero s h k = absurd (omega (arith, k))
    rounds-fuel (suc m) (suc n) s h k =
        shortens (rounds m) (rounds n) s
          (λ t lt. rounds-fuel m n t (omega (arith, lt, h)) (omega (arith, lt, k)))

    -- The loop is its rounds, without a bound on their number.
    pub loop-round : (s : Text) → loop s ≡ round loop s
    unfolding loop rounds
    loop-round s =
        shortens (rounds (length s)) loop s
          (λ t lt. rounds-fuel (length s) (suc (length t)) t lt (omega arith))

module _ {R : Type 0} (round : (Text → R) → Text → R) (stop stop' : R)
    (shortens : Shortens stop round) where
  ends_within : (n : ℕ) (s : Text) → length s < n → loop stop round s ≡ loop stop' round s
  ends_within zero s h = absurd (omega (arith, h))
  ends_within (suc n) s h =
      loop-round stop round shortens s
      ∙ shortens (loop stop round) (loop stop' round) s
          (λ t lt. ends_within n t (omega (arith, lt, h)))
      ∙ sym (loop-round stop' round shortens s)

  -- What the loop gives does not depend on what it would give out of fuel.
  pub loop-ends : (s : Text) → loop stop round s ≡ loop stop' round s
  loop-ends s = ends_within (suc (length s)) s (omega arith)
