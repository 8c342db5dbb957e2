-- ===== src/Common/Act.antt =====
-- Asynchronous code that mutates shared state and may fail: from a state to a result and a state.
-- `?` is the bind, and what was written before a failure stays written.
use oxidarr.Common.{◌≡◌, refl, sym, subst, Bool, true, false, if◌then◌else◌}
use oxidarr.Common.Outcome.{Outcome, ok, err}

abbrev pub Act : Type 0 → Type 0 → Type 0 → Type 0
Act S E A = S → Outcome E A × S

abbrev pub pure : {S E A : Type 0} → A → Act S E A
pure a s = (ok a, s)

abbrev pub fail : {S E A : Type 0} → E → Act S E A
fail e s = (err e, s)

abbrev pub lift : {S E A : Type 0} → Outcome E A → Act S E A
lift r s = (r, s)

abbrev pub next : {S E A B : Type 0} → Outcome E A × S → (A → Act S E B) → Outcome E B × S
next (ok a, s) f = f a s
next (err e, s) f = (err e, s)

infixl 5 ◌>>=◌ ◌>>◌
abbrev pub ◌>>=◌ : {S E A B : Type 0} → Act S E A → (A → Act S E B) → Act S E B
◌>>=◌ m f s = next (m s) f

abbrev pub ◌>>◌ : {S E A B : Type 0} → Act S E A → Act S E B → Act S E B
◌>>◌ m k s = next (m s) (λ _. k)

-- `From` for errors, and an action on a part of the state.
abbrev pub rejoin :
    {S T E F A : Type 0} → (T → S → S) → (E → F) → S → Outcome E A × T → Outcome F A × S
rejoin put wrap s (ok a, t) = (ok a, put t s)
rejoin put wrap s (err e, t) = (err (wrap e), put t s)

abbrev pub zoom : {S T E F A : Type 0} → (S → T) → (T → S → S) → (E → F) → Act T E A → Act S F A
zoom get put wrap m s = rejoin put wrap s (m (get s))

-- A relation between the states before and after, whatever the outcome.
pub record Relates {S E A : Type 0} (R : S → S → Type 0) (m : Act S E A) : Type 0 where
  pub at : (s : S) → R s (m s).1

-- A relation that is reflexive and transitive holds of a sequence if it holds of its parts.
pub record IsPreorder {S : Type 0} (R : S → S → Type 0) : Type 0 where
  pub stay : (s : S) → R s s
  pub step : {s t u : S} → R s t → R t u → R s u

module _ {S E : Type 0} {R : S → S → Type 0} (pre : IsPreorder R) where
  pub Relates-pure : {A : Type 0} (a : A) → Relates {E = E} R (pure a)
  Relates-pure a = record { at = pre.stay }

  pub Relates-fail : {A : Type 0} (e : E) → Relates {A = A} R (fail e)
  Relates-fail e = record { at = pre.stay }

  pub Relates-lift : {A : Type 0} (r : Outcome E A) → Relates R (lift r)
  Relates-lift r = record { at = pre.stay }

  pub Relates-bind :
      {A B : Type 0} (m : Act S E A) (f : A → Act S E B)
      → Relates R m
      → ((a : A) → Relates R (f a))
      → Relates R (m >>= f)
  Relates-bind m f km kf = record { at = λ s. go (m s) s (km.at s) }
    where
      go : (r : Outcome E _ × S) (s : S) → R s r.1 → R s (next r f).1
      go (ok a, t) s h = pre.step h ((kf a).at t)
      go (err e, t) s h = h

  -- What follows `r?` may use that `r` was a value.
  pub Relates-lift_bind :
      {A B : Type 0} (r : Outcome E A) (f : A → Act S E B)
      → ((a : A) → r ≡ ok a → Relates R (f a))
      → Relates R (lift r >>= f)
  Relates-lift_bind (ok a) f kf = kf a refl
  Relates-lift_bind (err e) f kf = Relates-fail e

  pub Relates-if :
      {A : Type 0} (b : Bool) (m n : Act S E A)
      → Relates R m
      → Relates R n
      → Relates R (if b then m else n)
  Relates-if true m n km kn = km
  Relates-if false m n km kn = kn

rejoin_state :
    {S T E F A : Type 0} (put : T → S → S) (wrap : E → F) (s : S) (r : Outcome E A × T)
    → (rejoin put wrap s r).1 ≡ put r.1 s
rejoin_state put wrap s (ok a, t) = refl
rejoin_state put wrap s (err e, t) = refl

-- An action on a part of the state, whatever it does to that part.
pub Relates-zoom :
    {S T E F A : Type 0} {R : S → S → Type 0} (get : S → T) (put : T → S → S) (wrap : E → F)
    (m : Act T E A)
    → ((s : S) → R s (put (m (get s)).1 s))
    → Relates R (zoom get put wrap m)
Relates-zoom {R} get put wrap m h = record {
  at = λ s. subst (R s) (sym (rejoin_state put wrap s (m (get s)))) (h s);
}

-- What holds of the result and the state after a successful run from `s`.
pub record Yields {S E A : Type 0} (m : Act S E A) (s : S) (Q : A → S → Type 0) : Type 0 where
  pub at : (a : A) (t : S) → m s ≡ (ok a, t) → Q a t

abbrev pub OfResult : {S E A : Type 0} → (A → S → Type 0) → Outcome E A × S → Type 0
OfResult Q (ok a, t) = Q a t
OfResult Q (err x, t) = Unit {0}

module _ {S E : Type 0} {s : S} where
  pub Yields-lift :
      {A : Type 0} {Q : A → S → Type 0} (r : Outcome E A)
      → ((a : A) → r ≡ ok a → Q a s)
      → Yields (lift r) s Q
  Yields-lift {Q} (ok a) h = record { at = λ b t e. subst (OfResult Q) e (h a refl) }
  Yields-lift (err x) h = record { at = λ b t e. cc }

  pub Yields-any : {A : Type 0} (m : Act S E A) → Yields m s (λ a t. Unit {0})
  Yields-any m = record { at = λ a t e. tt }

  pub Yields-self : {A : Type 0} (m : Act S E A) → Yields m s (λ a t. m s ≡ (ok a, t))
  Yields-self m = record { at = λ a t e. e }

  pub Yields-pure : {A : Type 0} {Q : A → S → Type 0} (a : A) → Q a s → Yields {E = E} (pure a) s Q
  Yields-pure {Q} a h = record { at = λ b t e. subst (OfResult Q) e h }

  pub Yields-bind :
      {A B : Type 0} {P : A → S → Type 0} {Q : B → S → Type 0} (m : Act S E A) (f : A → Act S E B)
      → Yields m s P
      → ((a : A) (t : S) → P a t → Yields (f a) t Q)
      → Yields (m >>= f) s Q
  Yields-bind {A} {B} {P} {Q} m f km kf = record { at = λ b u e. go (m s) refl b u e }
    where
      go : (r : Outcome E A × S) → m s ≡ r → (b : B) (u : S) → next r f ≡ (ok b, u) → Q b u
      go (ok a, t) h b u e = (kf a t (km.at a t h)).at b u e
      go (err x, t) h b u e = cc

  pub Yields-imp :
      {A : Type 0} {P Q : A → S → Type 0} (m : Act S E A)
      → Yields m s P
      → ((a : A) (t : S) → P a t → Q a t)
      → Yields m s Q
  Yields-imp m km h = record { at = λ a t e. h a t (km.at a t e) }

  pub Yields-if :
      {A : Type 0} {Q : A → S → Type 0} (b : Bool) (m n : Act S E A)
      → (b ≡ true → Yields m s Q)
      → (b ≡ false → Yields n s Q)
      → Yields (if b then m else n) s Q
  Yields-if true m n km kn = km refl
  Yields-if false m n km kn = kn refl

pub Relates-Yields :
    {S E A : Type 0} {R : S → S → Type 0} (m : Act S E A) (s : S)
    → Relates R m
    → Yields m s (λ a t. R s t)
Relates-Yields {R} m s h = record { at = λ a t e. subst (λ r. R s r.1) e (h.at s) }

pub Yields-zoom :
    {S T E F A : Type 0} {Q : A → S → Type 0} (get : S → T) (put : T → S → S) (wrap : E → F)
    (m : Act T E A) (s : S)
    → Yields m (get s) (λ a t. Q a (put t s))
    → Yields (zoom get put wrap m) s Q
Yields-zoom {T} {E} {A} {Q} get put wrap m s h = record { at = λ a u e. go (m (get s)) refl a u e }
  where
    go :
        (r : Outcome E A × T)
        → m (get s) ≡ r
        → (a : A) (u : _) → rejoin put wrap s r ≡ (ok a, u)
        → Q a u
    go (ok b, t) k a u e = subst (OfResult Q) e (h.at b t k)
    go (err x, t) k a u e = cc

pub Yields-all :
    {S E A I : Type 0} {Q : I → A → S → Type 0} (m : Act S E A) (s : S)
    → ((i : I) → Yields m s (Q i))
    → Yields m s (λ a t. (i : I) → Q i a t)
Yields-all m s h = record { at = λ a t e i. (h i).at a t e }
