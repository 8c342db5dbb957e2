-- ===== src/Template/Render.antt =====
-- `render` of crates/oxidarr-cardigann/src/template.rs as other code calls it, and `Display` of the errors in
-- crates/oxidarr-cardigann/src/error.rs.
use oxidarr.Common.{◌≢◌, refl, ◌++◌, Text, codes}
use oxidarr.Common.Outcome.{Outcome, ok, err}
use oxidarr.Template.{CardigannError, Scope, Regex}
use oxidarr.Template.Arguments.{Stop, failed, out_of_fuel}
use oxidarr.Template.Parse.{render}
use oxidarr.Template.Rounds.{render-ends}

abbrev settled : (r : Outcome Stop Text) → r ≢ err out_of_fuel → Outcome CardigannError Text
settled (ok t) h = ok t
settled (err (failed e)) h = err e
settled (err out_of_fuel) h = absurd (h refl)

-- `render` as other code calls it, since its fuel is enough.
unfoldable pub render_text :
    {P : Type 0} → Regex P → (Text → Text) → Text → Scope → Outcome CardigannError Text
unfolding render
render_text regex debug template scope =
    settled (render regex debug template scope) (render-ends debug template regex scope)

-- `Display` of errors.
unfoldable pub show_error : (Text → Text) → CardigannError → Text
show_error debug (CardigannError.selector selector reason) =
    codes "selector " ++ debug selector ++ codes " is not valid CSS after rewriting: " ++ reason
show_error debug (CardigannError.unbalanced_contains selector) =
    codes "selector " ++ debug selector ++ codes " has an unbalanced :contains(...) clause"
show_error debug (CardigannError.template template reason) =
    codes "template " ++ debug template ++ codes ": " ++ reason
show_error debug (CardigannError.unknown_filter name) = codes "unknown filter " ++ debug name
show_error debug (CardigannError.filter name reason) =
    codes "filter " ++ debug name ++ codes ": " ++ reason
show_error debug (CardigannError.definition reason) =
    codes "definition does not match schema v11: " ++ reason
