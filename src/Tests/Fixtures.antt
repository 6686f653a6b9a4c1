-- ===== src/Tests/Fixtures.antt =====
-- The inputs that the tests share.
use starkbot_neo.Common.{
  ℕ, ◌+◌, String, Bool, false, ◌&&◌, ◌||◌, Option, none, some, [], ◌∷◌, str_eq,
}
use starkbot_neo.Common.Tests.{leb, ◌==◌, if◌then◌else◌}
use starkbot_neo.Common.Result.{ok, err}
use starkbot_neo.Json.{Json, Fields, float, array, nil, cons, string, object, pos_int, field, end}
use starkbot_neo.Nav.Externals.{Url, Externals}
use starkbot_neo.Nav.Decision.{Action, Decision}
use starkbot_neo.Nav.Wire.{Evaluation, WireError}
use starkbot_neo.Nav.Session.{World, RunConfig, Navigator}

-- ASCII letters and digits.
abbrev pub ascii_alphanumeric : ℕ → Bool
ascii_alphanumeric c =
    (leb b'a' c && leb c b'z') || ((leb b'A' c && leb c b'Z') || (leb b'0' c && leb c b'9'))

-- One page is known to the parser.
abbrev pub parse : String → Option Url
parse s =
    if str_eq s "https://bank.test/pay"
    then some (record { scheme = "https"; host = some "bank.test" })
    else none

abbrev pub x : Externals
x = record {
  parse_url = parse;
  is_alphanumeric = ascii_alphanumeric;
  to_uppercase = λ s. s;
  to_string = λ j. "page";
  add = λ a b. a;
  sub = λ a b. 0;
  from_u64 = λ n. n;
  from_neg = λ n. n;
}

abbrev pub config : RunConfig
config = record {
  goal = "pay the bill";
  safety_heads = false;
  confirm_at = 0x3fd9_9999_9999_999a;
  denied_origins = "bank.test" ∷ [];
  on_task_floor = 0;
}

abbrev pub navigator : Navigator
navigator = record {
  history = [];
  pending_text = none;
  gate = none;
  approved = none;
  denied = [];
  handed_at = none;
}

abbrev pub pay : Action
pay =
    field "kind" (string "click") (field "node" (pos_int 3) (field "label" (string "Pay now") end))

abbrev pub read_more : Action
read_more =
    field "kind" (string "click")
      (field "node" (pos_int 4) (field "label" (string "Read more") end))

abbrev pub leave : Action
leave =
    field "kind" (string "click")
      (field "label" (string "Open") (field "href" (string "https://bank.test/pay") end))

abbrev pub decision : Decision
decision = record {
  operation = "CLICK";
  operation_confidence = 0x3ff0_0000_0000_0000;
  operation_probabilities = [];
  action = some read_more;
  target = none;
  target_confidence = none;
  safety = [];
}

-- A page with a challenge, behind which the classifier does not answer.
abbrev pub challenge : Json
challenge = object (
    field "url" (string "https://a.test")
      (field "signals" (object (field "captcha" (pos_int 1) end)) end))

abbrev pub world : World ℕ
world = record {
  observe = λ n. (ok challenge, n);
  fresh = λ n o. (ok none, n);
  act = λ n a o t. (ok tt, n);
  evaluate = λ n s q. (err WireError.connection, n);
  helper = none;
}

abbrev pub one : Json
one = float 0x3ff0_0000_0000_0000

abbrev pub choice_of : String → Fields → Json
choice_of c ps =
    object
      (field "choice" (string c) (field "confidence" one (field "probabilities" (object ps) end)))

-- A page with one button, which the classifier wants clicked until it is.
abbrev pub shop : Action → Json
shop action =
    object (
      field "actions" (array (cons (object action) nil))
        (field "url" (string "https://a.test") end))

abbrev pub buying : Evaluation
buying = record {
  answers = field "click_target" (choice_of "1" (field "1" one end)) (
      field "operation"
        (choice_of "CLICK"
          (field "BLOCKED" (float 0) (field "CLICK" one (field "DONE" (float 0) end))))
        end);
  usage = object end;
}

abbrev pub clicker : Action → World ℕ
clicker action = record {
  observe = λ n. (ok (shop action), n);
  fresh = λ n o. (ok none, n);
  act = λ n a o t. (ok tt, n + 1);
  evaluate = λ n s q. (if n == 0 then ok buying else err WireError.connection, n);
  helper = none;
}
