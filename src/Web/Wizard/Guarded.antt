-- ===== src/Web/Wizard/Guarded.antt =====
-- The guards of the wizard of apps/web/src/app/app/create/page.tsx.
use evidra_protocol.Base.{
  ℕ, ◌≡◌, ◌≢◌, ◌∙◌, refl, sym, ap, Bool, true, false, not, ◌&&◌, ◌||◌, Option, none, some, Text,
  lit, is_some, if◌then◌else◌, arith, same,
}
use evidra_protocol.Protocol.Values.{trim}
use evidra_protocol.Web.Validation.{Url, is_nil}
use evidra_protocol.Web.Wizard.{
  Wizard, selected_template, selected_policy, validate_template_fields, validate_submission, when,
  at_step, text_issue, mutability_issue, ttl_issue, source_issue, callback_issue, is_positive,
  Submission, stopped, sends, with_account, checked, submit, method_of,
}

-- What holds of a wizard whose form has no issue.
pub record IsComplete (parse_url : Text → Option Url) (safe_number : Text → Option ℕ) (w : Wizard)
    : Type 0 where
  pub subject : is_nil (trim w.form.subject) ≡ false
  pub predicate : is_nil (trim w.form.predicate) ≡ false
  pub template : validate_template_fields w ≡ none
  pub chosen : (is_some (selected_template w) || is_some (selected_policy w)) ≡ true
  pub mutability : mutability_issue parse_url safe_number w ≡ none
  pub ttl :
      (same w.form.mutability (lit "MUTABLE_WITH_TTL")
        && not (is_positive (safe_number w.form.ttl)))
      ≡ false
  pub sources : source_issue parse_url safe_number w ≡ none
  pub callback : callback_issue parse_url safe_number w ≡ none

when-none : (b : Bool) (m : Text) → when b m ≡ none → b ≡ false
when-none true m h = absurd (cc)
when-none false m h = refl

or_false : (a b : Bool) → (a || b) ≡ false → (a ≡ false) × (b ≡ false)
or_false a b h = (ground (arith, h), ground (arith, h))

or_true : (a b : Bool) → (not a && not b) ≡ false → (a || b) ≡ true
or_true a b h = ground (arith, h)

module _ (parse_url : Text → Option Url) (safe_number : Text → Option ℕ) where
  at_step-none :
      (n : ℕ) (o : Option Text) (rest : Option (ℕ × Text))
      → at_step n o rest ≡ none
      → (o ≡ none) × (rest ≡ none)
  at_step-none n none rest h = (refl, h)
  at_step-none n (some m) rest h = absurd (cc)

  validate_submission-IsComplete :
      (w : Wizard)
      → validate_submission parse_url safe_number w ≡ none
      → IsComplete parse_url safe_number w
  unfolding validate_submission
  validate_submission-IsComplete w h =
      let (a, h1) = at_step-none 0 (text_issue parse_url safe_number w) _ h in
      let (b, h2) = at_step-none 0 (validate_template_fields w) _ h1 in
      let (c, h3) =
        at_step-none 2
          (when (not (is_some (selected_template w)) && not (is_some (selected_policy w)))
            (lit "Choose an active policy or template before submitting."))
          _ h2 in
      let (d, h4) = at_step-none 3 (mutability_issue parse_url safe_number w) _ h3 in
      let (e, h5) = at_step-none 3 (ttl_issue parse_url safe_number w) _ h4 in
      let (f, h6) = at_step-none 4 (source_issue parse_url safe_number w) _ h5 in
      let (g, h7) = at_step-none 5 (callback_issue parse_url safe_number w) none h6 in
      let (named, said) = or_false _ _ (when-none _ _ a) in
      record {
        subject = named;
        predicate = said;
        template = b;
        chosen = or_true _ _ (when-none _ _ c);
        mutability = d;
        ttl = when-none _ _ e;
        sources = f;
        callback = g;
      }

  -- What holds when the wizard goes on to a write.
  pub record IsGuarded (w : Wizard) (account method : Text) : Type 0 where
    pub complete : IsComplete parse_url safe_number w
    pub first : w.result ≡ none
    pub connected : w.account ≡ some account
    pub network : w.right_network ≡ true
    pub method_name : method ≡ method_of (selected_template w)

  else_sends :
      (b : Bool) (x y : Submission) (a m : Text)
      → (if b then x else y) ≡ sends a m
      → ((c d : Text) → x ≢ sends c d)
      → (b ≡ false) × (y ≡ sends a m)
  else_sends true x y a m h k = absurd (k a m h)
  else_sends false x y a m h k = (refl, h)

  stopped_sends : (w : Wizard) (a m : Text) → stopped w ≢ sends a m
  stopped_sends w a m h = cc

  sends_inj : (a b m n : Text) → sends a m ≡ sends b n → (a ≡ b) × (m ≡ n)
  sends_inj a b m n h = (cc, cc)

  is_some-false : (o : Option Text) → is_some o ≡ false → o ≡ none
  is_some-false none h = refl
  is_some-false (some t) h = absurd (cc)

  -- The wizard goes on to a write only when its form has no issue: subject and predicate are not blank,
  -- the template has its fields and its mutability, a template or a policy that is active is chosen, a
  -- mutable fact has a positive lifetime, and the sources and the callback are accepted; and only when
  -- nothing was finalized before and a wallet is connected on the right network. It then writes for the
  -- account of the wallet, by template exactly when one is selected.
  pub submit-IsGuarded :
      (w : Wizard) (account method : Text)
      → submit parse_url safe_number w ≡ sends account method
      → IsGuarded w account method
  unfolding submit
  submit-IsGuarded w account method h = go (validate_submission parse_url safe_number w) refl h
    where
      ready :
          (o : Option Text)
          → w.account ≡ o
          → w.result ≡ none
          → IsComplete parse_url safe_number w
          → with_account w o ≡ sends account method
          → IsGuarded w account method
      ready none e r c h = absurd (stopped_sends _ account method h)
      ready (some a) e r c h =
          let (network, h1) =
            else_sends (not w.right_network) _ _ account method h (stopped_sends _) in
          let (chosen, h2) =
            else_sends (not (is_some (selected_policy w)) && not (is_some (selected_template w))) _
              _ account method h1 (stopped_sends _) in
          let (same_account, same_method) = sends_inj a account _ method h2 in
          record {
            complete = c;
            first = r;
            connected = e ∙ ap some same_account;
            network = ground (arith, network);
            method_name = sym same_method;
          }

      go :
          (o : Option (ℕ × Text))
          → validate_submission parse_url safe_number w ≡ o
          → checked w o ≡ sends account method
          → IsGuarded w account method
      go (some (n, m)) e h = absurd (stopped_sends _ account method h)
      go none e h =
          let (fresh, h1) = else_sends (is_some w.result) _ _ account method h (stopped_sends _) in
          ready w.account refl (is_some-false w.result fresh) (validate_submission-IsComplete w e)
            h1
