-- ===== src/Template/Builders.antt =====
-- What `parse` of crates/oxidarr-cardigann/src/template.rs skips, and the calls it builds.
use oxidarr.Common.{
  suc, ◌≤◌, ◌==◌, ◌≡◌, refl, ◌&&◌, Option, none, some, [], ◌∷◌, Text, length, arith, Bool-cases,
  inl, inr,
}
use oxidarr.Common.Str.{split_pair, split_pair-length}
use oxidarr.Template.{Args, nothing, arg, path, call, str}
use oxidarr.Template.Parse.{after_of, skip_action, one_or_more, build_join, build_re_replace}
use oxidarr.Template.Fuel.{Ends, Ends-ok}

pub skip_action-length : (s : Text) → length (skip_action s) ≤ length s
unfolding skip_action
skip_action-length [] = omega arith
skip_action-length (c ∷ []) = omega arith
skip_action-length (c ∷ d ∷ s) = elim (Bool-cases (c == 123 && d == 123)) [
  | inl e ↦ rw e (shorter (split_pair 125 125 s) refl)
  | inr e ↦ rw e (omega arith)
]
  where
    shorter :
        (found : Option (Text × Text))
        → split_pair 125 125 s ≡ found
        → length (after_of found) ≤ suc (suc (length s))
    shorter none e = omega arith
    shorter (some (before, after)) e = omega (arith, split_pair-length 125 125 s before after e)

module _ (full : Text) where
  pub one_or_more-Ends : (es : Args) → Ends (λ n. Unit {0}) (one_or_more full es)
  one_or_more-Ends nothing = record { at = tt }
  one_or_more-Ends (arg e es) = Ends-ok _ tt

  pub build_join-Ends : (es : Args) → Ends (λ n. Unit {0}) (build_join full es)
  build_join-Ends nothing = record { at = tt }
  build_join-Ends (arg (path p) nothing) = record { at = tt }
  build_join-Ends (arg (path p) (arg f nothing)) = Ends-ok _ tt
  build_join-Ends (arg (path p) (arg f (arg g es))) = record { at = tt }
  build_join-Ends (arg (str s) nothing) = record { at = tt }
  build_join-Ends (arg (str s) (arg f nothing)) = record { at = tt }
  build_join-Ends (arg (str s) (arg f (arg g es))) = record { at = tt }
  build_join-Ends (arg (call s fs) nothing) = record { at = tt }
  build_join-Ends (arg (call s fs) (arg f nothing)) = record { at = tt }
  build_join-Ends (arg (call s fs) (arg f (arg g es))) = record { at = tt }

  pub build_re_replace-Ends : (es : Args) → Ends (λ n. Unit {0}) (build_re_replace full es)
  build_re_replace-Ends nothing = record { at = tt }
  build_re_replace-Ends (arg e nothing) = record { at = tt }
  build_re_replace-Ends (arg e (arg f nothing)) = record { at = tt }
  build_re_replace-Ends (arg e (arg f (arg g nothing))) = Ends-ok _ tt
  build_re_replace-Ends (arg e (arg f (arg g (arg h es)))) = record { at = tt }
