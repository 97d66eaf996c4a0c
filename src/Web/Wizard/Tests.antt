-- ===== src/Web/Wizard/Tests.antt =====
-- The wizard of apps/web/src/app/app/create/page.tsx with a form that can be submitted.
use evidra_protocol.Base.{
  ℕ, refl, true, false, Option, none, some, List, [], ◌∷◌, Text, lit, includes, to_lower,
}
use evidra_protocol.Protocol.Values.{trim}
use evidra_protocol.Web.Validation.{Url, validate_url_list}
use evidra_protocol.Web.Wizard.{Form, PolicyChoice, Wizard, submit}
use evidra_protocol.Web.Wizard.Guarded.{IsGuarded, submit-IsGuarded}

-- Every text is taken for one URL.
abbrev one_url : Text → Option Url
one_url s = some (record {
  protocol = lit "https:";
  username = [];
  password = [];
  hash = [];
  hostname = lit "a.io";
})

abbrev no_number : Text → Option ℕ
no_number s = none

abbrev form : Form
form = record {
  subject = lit "a.io";
  predicate = lit "is up";
  object_value = [];
  qualifiers = [];
  temporal = [];
  description = [];
  mutability = lit "IMMUTABLE";
  ttl = lit "0";
  template_id = [];
  template_version = 1;
  policy_id = lit "core";
  policy_version = 1;
  sources = lit "https://a.io/";
  reuse_mode = lit "REUSE_IF_FRESH";
  callback = [];
}

abbrev policies : List PolicyChoice
policies = (record { policy_id = lit "core"; version = 1; active = true; deprecated = false }) ∷ []

abbrev wizard : Wizard
wizard = record {
  step = 7;
  form = form;
  error = none;
  result = none;
  templates = [];
  policies = policies;
  account = some (lit "0x1");
  right_network = true;
}

submit-IsGuarded_example : IsGuarded one_url no_number wizard (lit "0x1") (lit "request_fact")
unfolding submit validate_url_list trim includes to_lower
submit-IsGuarded_example =
    submit-IsGuarded one_url no_number wizard (lit "0x1") (lit "request_fact") refl
