-- ===== src/Auth.antt =====
-- crates/oxidarr-http/src/auth.rs: the API key middleware, and `Problem` of problem.rs. A string is its
-- UTF-8 bytes. axum, the header map and `form_urlencoded` are parameters.
pub mod Compare
pub mod Decision
use Prim.Native.Nat.{bit_or, bit_xor}
use oxidarr.Common.{
  ℕ, zero, suc, max, ◌==◌, ◌≡◌, Bool, true, false, Option, none, some, List, [], ◌∷◌, find, codes,
  Text, text_eq, length, get_elem?, if◌then◌else◌,
}

-- `a.get(i).copied().unwrap_or(0)`
unfoldable pub byte_at : List ℕ → ℕ → ℕ
byte_at [] i = 0
byte_at (x ∷ a) zero = x
byte_at (x ∷ a) (suc i) = byte_at a i

-- The loop from index `i`, with so many rounds to go.
unfoldable pub diff_loop : ℕ → ℕ → List ℕ → List ℕ → ℕ → ℕ
unfolding byte_at
diff_loop zero i a b diff = diff
diff_loop (suc rounds) i a b diff =
    diff_loop rounds (suc i) a b (bit_or diff (bit_xor (byte_at a i) (byte_at b i)))

unfoldable pub constant_time_eq : List ℕ → List ℕ → Bool
unfolding diff_loop
constant_time_eq a b =
    diff_loop (max (length a) (length b)) 0 a b (if length a == length b then 0 else 1) == 0

pub record Problem : Type 0 where
  pub status : ℕ
  pub message : Text

-- What the middleware reads of a request: the header map's `get`, and the raw query.
pub record Request : Type 0 where
  pub header : Text → Option (List ℕ)
  pub query : Option Text

-- `HeaderValue::to_str` and `url::form_urlencoded::parse`.
pub record Parsers : Type 0 where
  pub to_str : List ℕ → Option Text
  pub parse_query : Text → List (Text × Text)

abbrev pub header_name : Text
header_name = codes "x-api-key"

abbrev pub query_param_name : Text
query_param_name = codes "apikey"

abbrev pub and_then : {A B : Type 0} → Option A → (A → Option B) → Option B
and_then none f = none
and_then (some a) f = f a

abbrev pub or_else : {A : Type 0} → Option A → Option A → Option A
or_else none b = b
or_else (some a) b = some a

abbrev pub is_some_and : {A : Type 0} → Option A → (A → Bool) → Bool
is_some_and none f = false
is_some_and (some a) f = f a

unfoldable pub first_query_value : Parsers → Option Text → Text → Option Text
first_query_value parsers query name =
    and_then query λ q.
      and_then (find (λ pair. text_eq pair.0 name) (parsers.parse_query q)) (λ pair. some pair.1)

-- The candidate key of a request.
unfoldable pub provided : Parsers → Request → Option Text
unfolding first_query_value
provided parsers request =
    or_else (and_then (request.header header_name) parsers.to_str)
      (first_query_value parsers request.query query_param_name)

abbrev pub unauthorized : Problem
unauthorized = record { status = 401; message = codes "missing or invalid API key" }

unfoldable pub require_api_key :
    {A : Type 0} → Parsers → Text → (Request → A) → (Problem → A) → Request → A
unfolding provided constant_time_eq
require_api_key parsers key next respond request =
    if is_some_and (provided parsers request) (λ candidate. constant_time_eq candidate key)
    then next request
    else respond unauthorized
