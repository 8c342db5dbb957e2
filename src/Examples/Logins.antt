-- ===== src/Examples/Logins.antt =====
-- The theorems on logins, at a form and at a tracker that counts its requests.
use oxidarr.Common.{ℕ, ◌+◌, ◌≡◌, refl, false, none, some, List, [], ◌∷◌, Text, codes, is_whitespace}
use oxidarr.Common.Outcome.{ok, err}
use oxidarr.Common.Halt.{raised}
use oxidarr.Common.Ordered.{get}
use oxidarr.Http.{HttpClient}
use oxidarr.Model.{Definition, Login, LoginTest}
use oxidarr.Template.Tokens.{tokenize}
use oxidarr.Search.Inputs.{rejected}
use oxidarr.Search.Query.{new_scope}
use oxidarr.Login.Form.{form_pairs}
use oxidarr.Login.Flow.{authenticate}
use oxidarr.Login.Sends as Sends
use oxidarr.Login.Sends.{Calls, allowed}
use oxidarr.Login.Passes as Passes
use oxidarr.Login.Passes.{HasPassed}
use oxidarr.Login.Pairs as Pairs
use oxidarr.Login.Pairs.{IsOverlaid}
use oxidarr.Examples.Filters.{ctx}
use oxidarr.Examples.Searches.{def, urls}
use oxidarr.Examples.Pages.{Tree, tree, leaf, branch, lib_of, below, texts}

abbrev input : ℕ → Text → Text → Tree
input id name v =
    tree id (codes "input[name]") ((codes "name", name) ∷ (codes "value", v) ∷ []) [] leaf

abbrev form : Tree
form =
    tree 1 (codes "form") ((codes "action", codes "take") ∷ []) []
      (branch (input 2 (codes "user") []) (branch (input 3 (codes "token") (codes "t1")) leaf))

abbrev page : Tree
page = tree 0 (codes "html") [] [] (branch form leaf)

abbrev test : LoginTest
test = record { path = codes "me"; selector = none }

abbrev login : Login
login = record {
  path = some (codes "login");
  method = none;
  inputs = (codes "user", codes "ann") ∷ [];
  test = some test;
  error = [];
  form = none;
  submitpath = none;
  selectorinputs = [];
  cookies = [];
  has_captcha = false;
  selectors = false;
  headers = [];
}

abbrev tracker : Definition
tracker = record def { login = some login; settings = [] }

-- The status grows by one with each request.
abbrev client : HttpClient ℕ
client req s =
    (ok (record { status = 200 + s; headers = []; body = []; final_url = req.url }), s + 1)

logged_in : authenticate (lib_of page) urls client tracker [] 0 5 ≡ (ok tt, 8)
unfolding authenticate below texts tokenize is_whitespace
logged_in = refl

-- The same login when the answer to the test is a redirect.
failed_test :
    authenticate (lib_of page) urls client tracker [] 0 98
    ≡ (err (raised (rejected (codes "login test failed"))), 101)
unfolding authenticate below texts tokenize is_whitespace
failed_test = refl

authenticate-Calls_example :
    Calls client (allowed tracker.login) 5 (authenticate (lib_of page) urls client tracker [] 0 5).1
authenticate-Calls_example = Sends.authenticate-Calls (lib_of page) urls client tracker [] 0 5

authenticate-HasPassed_example : HasPassed (lib_of page) urls client tracker login [] test 8
authenticate-HasPassed_example =
    Passes.authenticate-HasPassed (lib_of page) urls client tracker login [] test refl 0 5 8 refl
      logged_in

abbrev pairs : List (Text × Text)
pairs = (codes "user", codes "ann") ∷ (codes "token", codes "t1") ∷ []

filled_form : form_pairs (lib_of page) login page form ctx new_scope ≡ ok pairs
unfolding form_pairs below texts tokenize is_whitespace get
filled_form = refl

form_pairs-IsOverlaid_example : IsOverlaid (lib_of page) login page form ctx new_scope pairs
form_pairs-IsOverlaid_example =
    Pairs.form_pairs-IsOverlaid (lib_of page) login page form ctx new_scope pairs filled_form
