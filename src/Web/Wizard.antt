-- ===== src/Web/Wizard.antt =====
-- The wizard of apps/web/src/app/app/create/page.tsx: its form, the checks of its steps, its moves and
-- the guards of `submit`. `parse_url` stands for `new URL`, and `safe_number` for `Number` of a text when
-- that is a safe integer that is not negative. The rendering and the effects that load lists are left
-- out.
pub mod Guarded
mod Tests
use evidra_protocol.Base.{
  ℕ, ◌+◌, ◌-◌, min, Bool, true, false, not, ◌&&◌, ◌||◌, Option, none, some, List, [], ◌∷◌, ◌++◌,
  Text, lit, Result, ok, err, same, ltb, leb, ◌==◌, is_some, find_first, keep_if, if◌then◌else◌,
}
use evidra_protocol.Protocol.Values.{trim, string}
use evidra_protocol.Protocol.Constants.{assert_address}
use evidra_protocol.Web.Validation.{
  Url, is_nil, or_message, parts_of, validate_url_list, template_mutability_rule,
  validate_template_required_fields,
}

-- `FormState`
pub record Form : Type 0 where
  pub subject : Text
  pub predicate : Text
  pub object_value : Text
  pub qualifiers : Text
  pub temporal : Text
  pub description : Text
  pub mutability : Text
  pub ttl : Text
  pub template_id : Text
  pub template_version : ℕ
  pub policy_id : Text
  pub policy_version : ℕ
  pub sources : Text
  pub reuse_mode : Text
  pub callback : Text

-- `Template` and `Policy`, as far as the checks read them.
pub record TemplateChoice : Type 0 where
  pub template_id : Text
  pub version : ℕ
  pub active : Bool
  pub deprecated : Bool
  pub fact_type : Text
  pub required_fields : Text

pub record PolicyChoice : Type 0 where
  pub policy_id : Text
  pub version : ℕ
  pub active : Bool
  pub deprecated : Bool

-- The state of the wizard: `result` is the transaction that was finalized.
pub record Wizard : Type 0 where
  pub step : ℕ
  pub form : Form
  pub error : Option Text
  pub result : Option Text
  pub templates : List TemplateChoice
  pub policies : List PolicyChoice
  pub account : Option Text
  pub right_network : Bool

unfoldable pub selected_template : Wizard → Option TemplateChoice
selected_template w =
    find_first
      (λ (t : TemplateChoice).
        same t.template_id w.form.template_id && (t.version == w.form.template_version))
      (keep_if (λ (t : TemplateChoice). t.active && not t.deprecated) w.templates)

unfoldable pub selected_policy : Wizard → Option PolicyChoice
selected_policy w =
    find_first
      (λ (p : PolicyChoice).
        same p.policy_id w.form.policy_id && (p.version == w.form.policy_version))
      (keep_if (λ (p : PolicyChoice). p.active && not p.deprecated) w.policies)

-- The values that a template can require.
abbrev field_value : Form → Text → Text
field_value f key =
    if same key (lit "description")
    then f.description
    else if same key (lit "mutability")
    then f.mutability
    else if same key (lit "object_value")
    then f.object_value
    else if same key (lit "predicate")
    then f.predicate
    else if same key (lit "qualifiers")
    then f.qualifiers
    else if same key (lit "subject")
    then f.subject
    else if same key (lit "temporal")
    then f.temporal
    else []

abbrev template_message : Form → Option TemplateChoice → Option Text
template_message f none =
    some (lit "This template is no longer available. Choose an active template or a custom fact.")
template_message f (some t) = validate_template_required_fields t.required_fields (field_value f)

-- `validateTemplateFields`
unfoldable pub validate_template_fields : Wizard → Option Text
unfolding selected_template
validate_template_fields w =
    if is_nil w.form.template_id then none else template_message w.form (selected_template w)

-- `selectedTemplateMutability`
abbrev mutability_of : Option TemplateChoice → Option Text
mutability_of none = none
mutability_of (some t) = template_mutability_rule t.fact_type

abbrev mutability_label : Text → Text
mutability_label rule =
    if same rule (lit "IMMUTABLE") then lit "immutable facts" else lit "mutable facts with ttl"

abbrev is_other : Option Text → Text → Bool
is_other none mutability = false
is_other (some rule) mutability = not (same mutability rule)

abbrev requires : Option Text → Text
requires none = []
requires (some rule) = lit "This template requires " ++ (mutability_label rule ++ lit ".")

abbrev pub when : Bool → Text → Option Text
when true message = some message
when false message = none

abbrev pub is_positive : Option ℕ → Bool
is_positive none = false
is_positive (some n) = ltb 0 n

-- The step that an issue belongs to, and its message.
abbrev pub at_step : ℕ → Option Text → Option (ℕ × Text) → Option (ℕ × Text)
at_step n none rest = rest
at_step n (some m) rest = some (n, m)

-- What `submit` does first: it stops, or it goes on to quote the fee and to send a write of a method
-- for an account.
pub data Submission : Type 0 where
  stopped : Wizard → Submission
  sends : (account method : Text) → Submission

abbrev pub method_of : Option TemplateChoice → Text
method_of none = lit "request_fact"
method_of (some t) = lit "request_fact_by_template"

abbrev pub stop_with : Wizard → Text → Submission
stop_with w m = stopped (record w { error = some m })

abbrev pub with_account : Wizard → Option Text → Submission
with_account w none = stop_with w (lit "Connect a wallet on Studio Dev before submitting.")
with_account w (some account) =
    if not w.right_network
    then stop_with w (lit "Connect a wallet on Studio Dev before submitting.")
    else if not (is_some (selected_policy w)) && not (is_some (selected_template w))
    then stop_with w (lit "Choose an active policy or template before submitting.")
    else sends account (method_of (selected_template w))

abbrev pub checked : Wizard → Option (ℕ × Text) → Submission
checked w (some (n, m)) = stopped (record w { error = some m; step = n })
checked w none =
    if is_some w.result
    then stop_with w (
        lit
          "This transaction is already finalized. Do not submit it again; check the registry after indexing catches up.")
    else with_account w w.account

module _ (parse_url : Text → Option Url) (safe_number : Text → Option ℕ) where
  abbrev pub text_issue : Wizard → Option Text
  text_issue w =
      when (is_nil (trim w.form.subject) || is_nil (trim w.form.predicate))
        (lit "Subject and predicate are required.")

  abbrev pub mutability_issue : Wizard → Option Text
  mutability_issue w =
      when (is_other (mutability_of (selected_template w)) w.form.mutability)
        (requires (mutability_of (selected_template w)))

  abbrev pub ttl_issue : Wizard → Option Text
  ttl_issue w =
      when
        (same w.form.mutability (lit "MUTABLE_WITH_TTL")
          && not (is_positive (safe_number w.form.ttl)))
        (lit "Mutable facts require a positive whole-number TTL in seconds.")

  abbrev pub source_issue : Wizard → Option Text
  source_issue w = validate_url_list parse_url (parts_of 10 w.form.sources) 8

  abbrev message_of : Result Text Text → Option Text
  message_of (ok address) = none
  message_of (err e) = some e

  abbrev pub callback_issue : Wizard → Option Text
  callback_issue w =
      if is_nil w.form.callback
      then none
      else message_of (assert_address (string w.form.callback) (lit "Callback target"))

  -- `validateSubmission`
  unfoldable pub validate_submission : Wizard → Option (ℕ × Text)
  unfolding validate_template_fields selected_template selected_policy
  validate_submission w = at_step 0 (text_issue w) (
      at_step 0 (validate_template_fields w) (
        at_step 2
          (when (not (is_some (selected_template w)) && not (is_some (selected_policy w)))
            (lit "Choose an active policy or template before submitting."))
          (at_step 3 (mutability_issue w) (
            at_step 3 (ttl_issue w)
              (at_step 4 (source_issue w) (at_step 5 (callback_issue w) none))))))

  abbrev second : Option (ℕ × Text) → Option Text
  second none = none
  second (some (n, m)) = some m

  abbrev if_step : Bool → Option Text → Option Text → Option Text
  if_step true issue rest = or_message issue rest
  if_step false issue rest = rest

  -- `validateStep`; a step that returns its issue, found or not, has nothing behind it.
  unfoldable pub validate_step : Wizard → Option Text
  unfolding validate_submission validate_template_fields selected_template selected_policy
  validate_step w = if_step (w.step == 0) (text_issue w) (
      if_step ((w.step == 0) || (w.step == 1)) (validate_template_fields w) (
        if_step (w.step == 2)
          (when (is_nil w.form.template_id && not (is_some (selected_policy w)))
            (lit "Select an active source policy."))
          (if_step (w.step == 3) (mutability_issue w) (
            if_step ((w.step == 3) || (w.step == 6)) (ttl_issue w) (
              if_step (w.step == 4) (source_issue w) (
                if_step (w.step == 5) (callback_issue w)
                  (if_step (w.step == 6) (second (validate_submission w)) none)))))))

  abbrev refused_next : Wizard → Text → Wizard
  refused_next w m =
      if (w.step == 1) && is_some (selected_template w) && is_some (validate_template_fields w)
      then record w { error = some m; step = 0 }
      else record w { error = some m }

  abbrev after_check : Wizard → Option Text → Wizard
  after_check w none = record w { error = none; step = min 7 (w.step + 1) }
  after_check w (some m) = refused_next w m

  unfoldable pub next : Wizard → Wizard
  unfolding validate_step selected_template validate_template_fields
  next w = after_check w (validate_step w)

  abbrev after_submission : Wizard → Option (ℕ × Text) → Wizard
  after_submission w none = record w { error = none; step = 7 }
  after_submission w (some (n, m)) = record w { error = some m; step = n }

  unfoldable pub continue_to_submit : Wizard → Wizard
  unfolding validate_submission
  continue_to_submit w = after_submission w (validate_submission w)

  unfoldable pub previous : Wizard → Wizard
  previous w = record w { error = none; step = w.step - 1 }

  -- The restored step of a draft.
  unfoldable pub restore_step : ℕ → Wizard → Wizard
  restore_step n w = record w { step = min 7 n }

  unfoldable pub submit : Wizard → Submission
  unfolding validate_submission selected_template selected_policy
  submit w = checked w (validate_submission w)
