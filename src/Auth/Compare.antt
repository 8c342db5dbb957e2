-- ===== src/Auth/Compare.antt =====
-- `constant_time_eq` of crates/oxidarr-http/src/auth.rs: it decides equality.
use Prim.Native.Nat.{bit_or, bit_xor, bit_or-bitwise, bit_xor-bitwise, digits, differ}
use oxidarr.Common.{
  ℕ, zero, suc, max, ◌≤◌, ◌/◌, ◌%◌, ◌≡◌, ◌==◌, refl, ◌∙◌, sym, ap, Bool, true, ◌&&◌, List, [], ◌∷◌,
  text_eq, length, arith, Bool-cases, inl, inr,
}
use oxidarr.Auth.{byte_at, diff_loop, constant_time_eq}

or_zero : (n a b : ℕ) → a ≤ n → digits (λ y. y) max n a b ≡ 0 → (a ≡ 0) × (b ≡ 0)
or_zero zero zero b le h = (refl, h)
or_zero zero (suc a) b le h = absurd (omega arith)
or_zero (suc n) zero b le h = (refl, h)
or_zero (suc n) (suc a) b le h =
    let (p, q) = or_zero n (suc a / 2) (b / 2) (omega arith) (omega (arith, h)) in
    absurd (omega (arith, p, q, h))

differ_zero : (x y : ℕ) → differ x y ≡ 0 → x ≡ y
differ_zero zero y h = sym h
differ_zero (suc x) zero h = h
differ_zero (suc x) (suc y) h = ap suc (differ_zero x y h)

differ_self : (x : ℕ) → differ x x ≡ 0
differ_self zero = refl
differ_self (suc x) = differ_self x

xor_zero : (n a b : ℕ) → a ≤ n → digits (λ y. y) differ n a b ≡ 0 → a ≡ b
xor_zero zero zero b le h = sym h
xor_zero zero (suc a) b le h = absurd (omega arith)
xor_zero (suc n) zero b le h = sym h
xor_zero (suc n) (suc a) b le h =
    let p = xor_zero n (suc a / 2) (b / 2) (omega arith) (omega (arith, h)) in
    let q = differ_zero (suc a % 2) (b % 2) (omega (arith, h)) in omega (arith, p, q)

xor_self : (n a : ℕ) → a ≤ n → digits (λ y. y) differ n a a ≡ 0
xor_self zero zero le = refl
xor_self zero (suc a) le = absurd (omega arith)
xor_self (suc n) zero le = refl
xor_self (suc n) (suc a) le =
    omega (arith, xor_self n (suc a / 2) (omega arith), differ_self (suc a % 2))

-- One round keeps the accumulator zero just if the bytes are the same.
round : (diff x y : ℕ) → (bit_or diff (bit_xor x y) == 0) ≡ ((diff == 0) && (x == y))
round diff x y = ground (arith, still_zero, was_zero)
  where
    still_zero : (diff ≡ 0) × (x ≡ y) → bit_or diff (bit_xor x y) ≡ 0
    still_zero (d, e) =
        rw (d, e, bit_or-bitwise 0 (bit_xor y y), bit_xor-bitwise y y) (xor_self y y (omega arith))

    was_zero : bit_or diff (bit_xor x y) ≡ 0 → (diff ≡ 0) × (x ≡ y)
    was_zero h =
        let (d, e) =
          or_zero diff diff (bit_xor x y) (omega arith)
            (sym (bit_or-bitwise diff (bit_xor x y)) ∙ h) in
        (d, xor_zero x x y (omega arith) (sym (bit_xor-bitwise x y) ∙ e))

-- So many bytes from an index are the same.
same_bytes : ℕ → ℕ → List ℕ → List ℕ → Bool
same_bytes zero i a b = true
same_bytes (suc n) i a b = byte_at a i == byte_at b i && same_bytes n (suc i) a b

diff_loop-same_bytes :
    (n i : ℕ) (a b : List ℕ) (diff : ℕ)
    → (diff_loop n i a b diff == 0) ≡ ((diff == 0) && same_bytes n i a b)
unfolding diff_loop same_bytes
diff_loop-same_bytes zero i a b diff = ground arith
diff_loop-same_bytes (suc n) i a b diff = ground (
  arith,
  diff_loop-same_bytes n (suc i) a b (bit_or diff (bit_xor (byte_at a i) (byte_at b i))),
  round diff (byte_at a i) (byte_at b i),
)

same_bytes-tail :
    (n i x y : ℕ) (a b : List ℕ) → same_bytes n (suc i) (x ∷ a) (y ∷ b) ≡ same_bytes n i a b
unfolding same_bytes byte_at
same_bytes-tail zero i x y a b = refl
same_bytes-tail (suc n) i x y a b =
    ap (λ r. byte_at a i == byte_at b i && r) (same_bytes-tail n (suc i) x y a b)

longest : (m n : ℕ) → m ≡ n → max m n ≡ m
longest m n e = omega (arith, e)

same_bytes-text_eq :
    (a b : List ℕ) → length a ≡ length b → same_bytes (length a) 0 a b ≡ text_eq a b
unfolding same_bytes byte_at
same_bytes-text_eq [] [] e = refl
same_bytes-text_eq [] (y ∷ b) e = absurd (omega (arith, e))
same_bytes-text_eq (x ∷ a) [] e = absurd (omega (arith, e))
same_bytes-text_eq (x ∷ a) (y ∷ b) e =
    ap (λ r. x == y && r)
      (same_bytes-tail (length a) 0 x y a b ∙ same_bytes-text_eq a b (omega (arith, e)))

text_eq-length : (a b : List ℕ) → text_eq a b ≡ true → length a ≡ length b
text_eq-length [] [] h = refl
text_eq-length [] (y ∷ b) h = cc
text_eq-length (x ∷ a) [] h = cc
text_eq-length (x ∷ a) (y ∷ b) h = ground (arith, h, text_eq-length a b)

-- `constant_time_eq` decides equality, of slices of any lengths.
pub constant_time_eq-text_eq : (a b : List ℕ) → constant_time_eq a b ≡ text_eq a b
unfolding constant_time_eq
constant_time_eq-text_eq a b = elim (Bool-cases (length a == length b)) [
  | inl e ↦
      let same : length a ≡ length b = ground (arith, e) in
      diff_loop-same_bytes (max (length a) (length b)) 0 a b _
      ∙ rw e (ap (λ n. same_bytes n 0 a b) (longest (length a) (length b) same))
      ∙ same_bytes-text_eq a b same
  | inr e ↦
      diff_loop-same_bytes (max (length a) (length b)) 0 a b _
      ∙ rw e (ground (arith, e, text_eq-length a b))
]
